-- ===== src/CommandMode/Keys.antt =====
-- `set_owned_interface`: what a key does, by the joint and the interface that it names.
use mathlib.Core.Option.{some-injective}
use robstride_ros.Prelude.{
  ◌≡◌, ◌≢◌, refl, ◌⊎◌, inl, inr, Bool, true, false, none, some, List, [], ◌∷◌, ◌++◌, arith, Text,
  bytes, text_eq, text_eq_iff, All, ap, Bool-cases, Option-cases, subst, sym, ◌∙◌, ◌↔◌,
}
use robstride_ros.CommandMode.{
  CommandModeState, slash, position_key, velocity_key, effort_key, before_last, joint_part,
  set_first, owns, set_owned_interface,
}

-- A text without a slash.
abbrev pub HasNoSlash : Text → Type 0
HasNoSlash = All λ c. c ≢ slash

before_last_plain : (t : Text) → HasNoSlash t → before_last t ≡ none
unfolding before_last
before_last_plain [] h = refl
before_last_plain (c ∷ t) h = ground (arith, before_last_plain t h.1)

before_last-append : (name t : Text) → HasNoSlash t → before_last (name ++ slash ∷ t) ≡ some name
unfolding before_last
before_last-append [] t h = ground (arith, before_last_plain t h)
before_last-append (c ∷ name) t h = ground (arith, before_last-append name t h)

-- The joint's part of a key is what stands before the last slash.
pub joint_part-append : (name t : Text) → HasNoSlash t → joint_part (name ++ slash ∷ t) ≡ name
unfolding joint_part
joint_part-append name t h = ground (arith, before_last-append name t h)

pub text_eq_refl : (s : Text) → text_eq s s ≡ true
text_eq_refl s = (text_eq_iff s s).1 refl

append_cancel : (m s t : Text) → m ++ s ≡ m ++ t → s ≡ t
append_cancel [] s t e = e
append_cancel (c ∷ m) s t e = append_cancel m s t (cc)

-- Two keys with a slash-free last part are equal only if both parts are.
pub key_injective :
    (m n s t : Text)
    → HasNoSlash s
    → HasNoSlash t
    → m ++ slash ∷ s ≡ n ++ slash ∷ t
    → (m ≡ n) × (s ≡ t)
key_injective m n s t hs ht e =
    let same : m ≡ n =
      some-injective m n
        (sym (before_last-append m s hs) ∙ ap before_last e ∙ before_last-append n t ht) in
    let tails : slash ∷ s ≡ slash ∷ t = append_cancel n _ _ (rw same at e) in (same, cc)

pub data Interface : Type 0 where
  position velocity effort : Interface

abbrev pub interface_name : Interface → Text
interface_name position = bytes "position"
interface_name velocity = bytes "velocity"
interface_name effort = bytes "effort"

abbrev pub key_of : Text → Interface → Text
key_of name i = name ++ slash ∷ interface_name i

interface_name-HasNoSlash : (i : Interface) → HasNoSlash (interface_name i)
interface_name-HasNoSlash position = ground arith
interface_name-HasNoSlash velocity = ground arith
interface_name-HasNoSlash effort = ground arith

pub joint_part-key_of : (name : Text) (i : Interface) → joint_part (key_of name i) ≡ name
joint_part-key_of name i = joint_part-append name (interface_name i) (interface_name-HasNoSlash i)

interface_name-injective : (i j : Interface) → interface_name i ≡ interface_name j → i ≡ j
interface_name-injective i j e = ground arith

-- A key names one joint and one interface.
pub key_of-injective :
    (key m n : Text) (i j : Interface)
    → text_eq key (key_of m i) ≡ true
    → text_eq key (key_of n j) ≡ true
    → (m ≡ n) × (i ≡ j)
key_of-injective key m n i j p q =
    let e : key_of m i ≡ key_of n j =
      sym ((text_eq_iff key (key_of m i)).0 p) ∙ (text_eq_iff key (key_of n j)).0 q in
    let (names, interfaces) =
      key_injective m n _ _ (interface_name-HasNoSlash i) (interface_name-HasNoSlash j) e in
    (names, interface_name-injective i j interfaces)

-- What a key asks of the switch of these joints: it either names a supported interface, of whatever
-- joint, or does not name an interface of any of these joints.
abbrev pub IsAcceptable : List CommandModeState → Text → Type 0
IsAcceptable states key =
    ((i : Interface) × (key ≡ key_of (joint_part key) i)) ⊎ (owns states (joint_part key) ≡ false)

set_first-supported :
    (states : List CommandModeState) (key : Text) (active : Bool) (changed : List CommandModeState)
    → set_first states key active ≡ some changed
    → (i : Interface) × (key ≡ key_of (joint_part key) i)
unfolding set_first
set_first-supported [] key active changed e = cc
set_first-supported (s ∷ states) key active changed e =
    elim (Bool-cases (text_eq key (position_key s.joint_name))) [
      | inl p ↦ (position, named position p)
      | inr p ↦ elim (Bool-cases (text_eq key (velocity_key s.joint_name))) [
        | inl v ↦ (velocity, named velocity v)
        | inr v ↦ elim (Bool-cases (text_eq key (effort_key s.joint_name))) [
          | inl f ↦ (effort, named effort f)
          | inr f ↦ elim (Option-cases (set_first states key active)) [
            | inl missing ↦ ground arith
            | inr (rest, found) ↦ set_first-supported states key active rest found
          ]
        ]
      ]
    ]
  where
    named :
        (i : Interface)
        → text_eq key (key_of s.joint_name i) ≡ true
        → key ≡ key_of (joint_part key) i
    named i h =
        let e : key ≡ key_of s.joint_name i = (text_eq_iff _ _).0 h in
        let n : joint_part key ≡ s.joint_name =
          ap joint_part e ∙ joint_part-key_of s.joint_name i in
        rw n e

set_first-owned :
    (states : List CommandModeState) (name : Text) (i : Interface) (active : Bool)
    → owns states name ≡ true
    → set_first states (key_of name i) active ≢ none
unfolding set_first
set_first-owned [] name i active h = ground arith
set_first-owned (s ∷ states) name i active h = elim (Bool-cases (text_eq name s.joint_name)) [
  | inl same ↦ let e : name ≡ s.joint_name = (text_eq_iff _ _).0 same in rw e (hit i)
  | inr other ↦ ground (arith, set_first-owned states name i active)
]
  where
    hit : (i : Interface) → set_first (s ∷ states) (key_of s.joint_name i) active ≢ none
    hit position = ground (arith, text_eq_refl (position_key s.joint_name))
    hit velocity = ground (arith, text_eq_refl (velocity_key s.joint_name))
    hit effort = ground (arith, text_eq_refl (effort_key s.joint_name))

-- A key is accepted exactly when it is acceptable.
pub set_owned_interface_iff :
    (states : List CommandModeState) (key : Text) (active : Bool)
    → ((set_owned_interface states key active).1 ≡ true) ↔ IsAcceptable states key
unfolding set_owned_interface
set_owned_interface_iff states key active = (accepted, acceptable)
  where
    accepted : (set_owned_interface states key active).1 ≡ true → IsAcceptable states key
    accepted h = elim (Option-cases (set_first states key active)) [
      | inl missing ↦ inr (ground arith)
      | inr (changed, e) ↦ inl (set_first-supported states key active changed e)
    ]

    acceptable : IsAcceptable states key → (set_owned_interface states key active).1 ≡ true
    acceptable (inr foreign) = ground arith
    acceptable (inl (i, e)) = elim (Bool-cases (owns states (joint_part key))) [
      | inr foreign ↦ ground arith
      | inl owned ↦
          let found =
            subst (λ k. set_first states k active ≢ none) (sym e)
              (set_first-owned states (joint_part key) i active owned) in
          ground arith
    ]
