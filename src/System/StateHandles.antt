-- ===== src/System/StateHandles.antt =====
-- The names of the state interfaces that are bound: no two of them are the same.
use robstride_ros.Prelude.{
  ℕ, ◌+◌, Bool, true, false, List, [], ◌∷◌, ◌++◌, ◌≡◌, ◌≢◌, ◌⊎◌, inl, inr, refl, sym, ◌∙◌, ap,
  arith, Bool-cases, Text, text_eq, text_eq_iff, bytes, All, map, if◌then◌else◌, ◌==◌,
}
use robstride_ros.Double.{Double}
use robstride_ros.Joint.{JointData}
use robstride_ros.CommandMode.{slash}
use robstride_ros.CommandMode.Keys.{HasNoSlash, key_injective}
use robstride_ros.CommandMode.Switch.{IsDistinct}
use robstride_ros.System.Bindings.{StateMember, Binding}
use robstride_ros.System.State.{state_bindings, bind}
use robstride_ros.System.Published.{IsSeparate, handles_of}
use robstride_ros.System.Handles.{state_of}

-- The last part of a state interface's name, from which its first letter tells it.
abbrev member_name : StateMember → Text
member_name StateMember.position = bytes "position"
member_name StateMember.velocity = bytes "velocity"
member_name StateMember.effort = bytes "effort"
member_name StateMember.temperature = bytes "temperature"
member_name StateMember.fault = bytes "fault"

abbrev named : Text → StateMember
named [] = StateMember.fault
named (c ∷ name) =
    if c == b'p'
    then StateMember.position
    else if c == b'v'
    then StateMember.velocity
    else if c == b'e'
    then StateMember.effort
    else if c == b't'
    then StateMember.temperature
    else StateMember.fault

named-member_name : (m : StateMember) → named (member_name m) ≡ m
named-member_name StateMember.position = refl
named-member_name StateMember.velocity = refl
named-member_name StateMember.effort = refl
named-member_name StateMember.temperature = refl
named-member_name StateMember.fault = refl

member_name-HasNoSlash : (m : StateMember) → HasNoSlash (member_name m)
member_name-HasNoSlash StateMember.position = omega arith
member_name-HasNoSlash StateMember.velocity = omega arith
member_name-HasNoSlash StateMember.effort = omega arith
member_name-HasNoSlash StateMember.temperature = omega arith
member_name-HasNoSlash StateMember.fault = omega arith

abbrev state_key : Text → StateMember → Text
state_key name m = name ++ slash ∷ member_name m

abbrev IsApart : Text → Text → Type 0
IsApart h other = text_eq h other ≡ false

state_key-IsApart :
    (m n : Text) (a b : StateMember) → (m ≢ n) ⊎ (a ≢ b) → IsApart (state_key m a) (state_key n b)
state_key-IsApart m n a b different = elim (Bool-cases (text_eq (state_key m a) (state_key n b))) [
  | inr apart ↦ apart
  | inl same ↦
      let (names, members) =
        key_injective m n (member_name a) (member_name b) (member_name-HasNoSlash a)
          (member_name-HasNoSlash b) ((text_eq_iff _ _).0 same) in
      elim different [
        | inl ne ↦ absurd (ne names)
        | inr ne ↦ absurd (ne (sym (named-member_name a) ∙ ap named members ∙ named-member_name b))
      ]
]

module _ {W : Type 0} where
  -- The bindings of a joint that it need not export, before those of the joints after it.
  abbrev extras :
      Bool
      → Binding StateMember W
      → Bool
      → Binding StateMember W
      → List (Binding StateMember W)
      → List (Binding StateMember W)
  extras b x c y bindings = (if b then x ∷ [] else []) ++ (if c then y ∷ [] else []) ++ bindings

  All-extras :
      (P : Text → Type 0) (b : Bool) (x : Binding StateMember W) (c : Bool)
      (y : Binding StateMember W) (bindings : List (Binding StateMember W))
      → P x.handle
      → P y.handle
      → All P (handles_of bindings)
      → All P (handles_of (extras b x c y bindings))
  All-extras P true x true y bindings p q all = (p, (q, all))
  All-extras P true x false y bindings p q all = (p, all)
  All-extras P false x true y bindings p q all = (q, all)
  All-extras P false x false y bindings p q all = all

  extras-IsSeparate :
      (b : Bool) (x : Binding StateMember W) (c : Bool) (y : Binding StateMember W)
      (bindings : List (Binding StateMember W))
      → IsApart x.handle y.handle
      → All (IsApart x.handle) (handles_of bindings)
      → All (IsApart y.handle) (handles_of bindings)
      → IsSeparate (handles_of bindings)
      → IsSeparate (handles_of (extras b x c y bindings))
  extras-IsSeparate true x true y bindings apart xs ys separate = ((apart, xs), (ys, separate))
  extras-IsSeparate true x false y bindings apart xs ys separate = (xs, separate)
  extras-IsSeparate false x true y bindings apart xs ys separate = (ys, separate)
  extras-IsSeparate false x false y bindings apart xs ys separate = separate

module _ {W : Type 0} ⦃d : Double W⦄ where
  state_keys-IsApart :
      (name : Text) (m : StateMember) (k : ℕ) (joints : List (JointData W))
      → All (λ t. name ≢ t.joint_name) (map state_of joints)
      → All (IsApart (state_key name m)) (handles_of (state_bindings k joints))
  unfolding state_bindings
  state_keys-IsApart name m k [] others = tt
  state_keys-IsApart name m k (j ∷ joints) (other, others) =
      let apart : (b : StateMember) → IsApart (state_key name m) (state_key j.name b) =
        λ b. state_key-IsApart name j.name m b (inl other) in
      let P = IsApart (state_key name m) in
      let rest = state_keys-IsApart name m (k + 1) joints others in
      (
        apart StateMember.position,
        (
          apart StateMember.velocity,
          (
            apart StateMember.effort,
            All-extras P j.exports_temperature _ j.exports_fault _ (state_bindings (k + 1) joints)
                (apart StateMember.temperature) (apart StateMember.fault) rest,
          ),
        ),
      )

  pub state_bindings-IsSeparate :
      (k : ℕ) (joints : List (JointData W))
      → IsDistinct (map state_of joints)
      → IsSeparate (handles_of (state_bindings k joints))
  unfolding state_bindings
  state_bindings-IsSeparate k [] distinct = tt
  state_bindings-IsSeparate k (j ∷ joints) (others, distinct) =
      let key = state_key j.name in
      let apart : (a b : StateMember) → a ≢ b → IsApart (key a) (key b) =
        λ a b ne. state_key-IsApart j.name j.name a b (inr ne) in
      let rest : (a : StateMember)
          → All (IsApart (key a)) (handles_of (state_bindings (k + 1) joints)) =
        λ a. state_keys-IsApart j.name a (k + 1) joints others in
      let hot = bind (key StateMember.temperature) k StateMember.temperature in
      let bad = bind (key StateMember.fault) k StateMember.fault in
      let later = state_bindings (k + 1) joints in
      let tail : (a : StateMember)
          → a ≢ StateMember.temperature
          → a ≢ StateMember.fault
          → All (IsApart (key a))
              (handles_of (extras j.exports_temperature hot j.exports_fault bad later)) =
        λ a t f.
          All-extras (IsApart (key a)) j.exports_temperature hot j.exports_fault bad later
            (apart a StateMember.temperature t) (apart a StateMember.fault f) (rest a) in
      (
        (
          apart StateMember.position StateMember.velocity (λ e. cc),
          (
            apart StateMember.position StateMember.effort (λ e. cc),
            tail StateMember.position (λ e. cc) (λ e. cc),
          ),
        ),
        (
          (
            apart StateMember.velocity StateMember.effort (λ e. cc),
            tail StateMember.velocity (λ e. cc) (λ e. cc),
          ),
          (
            tail StateMember.effort (λ e. cc) (λ e. cc),
            extras-IsSeparate j.exports_temperature hot j.exports_fault bad later
                (apart StateMember.temperature StateMember.fault (λ e. cc))
                (rest StateMember.temperature) (rest StateMember.fault)
                (state_bindings-IsSeparate (k + 1) joints distinct),
          ),
        ),
      )
