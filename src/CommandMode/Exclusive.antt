-- ===== src/CommandMode/Exclusive.antt =====
-- `validate_command_mode_switch` against `command_modes_after_switch`.
use robstride_ros.Prelude.{
  ◌≡◌, ◌≤◌, refl, ◌↔◌, inl, inr, Bool, true, false, not, some, List, [], ◌∷◌, arith, Text, all, All,
  map, ap, subst, Option-cases, sym, ◌∙◌, ltb,
}
use robstride_ros.CommandMode.{
  CommandModeState, joint_part, set_first, owns, set_owned_interface, set_all, set_all_or_stop,
  active_count, validate_command_mode_switch, command_modes_after_switch,
}
use robstride_ros.CommandMode.Keys.{IsAcceptable, set_owned_interface_iff}

abbrev names : List CommandModeState → List Text
names = map λ s. s.joint_name

set_first-names :
    (states : List CommandModeState) (key : Text) (active : Bool) (changed : List CommandModeState)
    → set_first states key active ≡ some changed
    → names changed ≡ names states
unfolding set_first
set_first-names [] key active changed e = cc
set_first-names (s ∷ states) key active changed e =
    elim (Option-cases (set_first states key active)) [
      | inl missing ↦ ground arith
      | inr (rest, found) ↦ ground (arith, set_first-names states key active rest found)
    ]

set_owned_interface-names :
    (states : List CommandModeState) (key : Text) (active : Bool)
    → names (set_owned_interface states key active).0 ≡ names states
unfolding set_owned_interface
set_owned_interface-names states key active = elim (Option-cases (set_first states key active)) [
  | inl missing ↦ ground arith
  | inr (changed, found) ↦ ground (arith, set_first-names states key active changed found)
]

owns-names :
    (states others : List CommandModeState) (name : Text)
    → names states ≡ names others
    → owns states name ≡ owns others name
owns-names [] [] name e = refl
owns-names [] (t ∷ others) name e = cc
owns-names (s ∷ states) [] name e = cc
owns-names (s ∷ states) (t ∷ others) name e =
    let heads : s.joint_name ≡ t.joint_name = cc in
    let tails : names states ≡ names others = cc in cc (owns-names states others name tails)

IsAcceptable-names :
    (states others : List CommandModeState) (key : Text)
    → names states ≡ names others
    → IsAcceptable states key
    → IsAcceptable others key
IsAcceptable-names states others key e (inl known) = inl known
IsAcceptable-names states others key e (inr foreign) =
    inr (sym (owns-names states others (joint_part key) e) ∙ foreign)

All-IsAcceptable-names :
    (states others : List CommandModeState) (keys : List Text)
    → names states ≡ names others
    → All (IsAcceptable states) keys
    → All (IsAcceptable others) keys
All-IsAcceptable-names states others [] e h = tt
All-IsAcceptable-names states others (key ∷ keys) e (h, hs) =
    (IsAcceptable-names states others key e h, All-IsAcceptable-names states others keys e hs)

set_all-names :
    (keys : List Text) (states : List CommandModeState) (active : Bool)
    → names (set_all states keys active) ≡ names states
unfolding set_all
set_all-names [] states active = refl
set_all-names (key ∷ keys) states active =
    set_all-names keys (set_owned_interface states key active).0 active
    ∙ set_owned_interface-names states key active

-- One round of the loop, from what is known of the key and of the loop after it.
step_iff :
    (key : Text) (keys : List Text) (states : List CommandModeState) (active : Bool)
    → let (changed, accepted) = set_owned_interface states key active in
      ((accepted ≡ true) ↔ IsAcceptable states key)
      → (((set_all_or_stop changed keys active).1 ≡ true) ↔ All (IsAcceptable changed) keys)
      → (All (IsAcceptable changed) keys → All (IsAcceptable states) keys)
      → (All (IsAcceptable states) keys → All (IsAcceptable changed) keys)
      → ((set_all_or_stop states (key ∷ keys) active).1 ≡ true)
        ↔ All (IsAcceptable states) (key ∷ keys)
unfolding set_all_or_stop
step_iff key keys states active one rest to from = (
  λ h. (one.0 (ground arith), to (rest.0 (ground arith))),
  λ h. let first = one.1 h.0 in let others = rest.1 (from h.1) in ground arith,
)

-- The loop that stops at a rejection passes exactly the acceptable keys, and then agrees with the one
-- that does not stop.
set_all_or_stop_iff :
    (keys : List Text) (states : List CommandModeState) (active : Bool)
    → ((set_all_or_stop states keys active).1 ≡ true) ↔ All (IsAcceptable states) keys
unfolding set_all_or_stop
set_all_or_stop_iff [] states active = (λ _. tt, λ _. refl)
set_all_or_stop_iff (key ∷ keys) states active =
    let changed : List CommandModeState = (set_owned_interface states key active).0 in
    let same = set_owned_interface-names states key active in
    step_iff key keys states active (set_owned_interface_iff states key active)
      (set_all_or_stop_iff keys changed active) (All-IsAcceptable-names changed states keys same)
      (All-IsAcceptable-names states changed keys (sym same))

set_all_or_stop-set_all :
    (keys : List Text) (states : List CommandModeState) (active : Bool)
    → (set_all_or_stop states keys active).1 ≡ true
    → (set_all_or_stop states keys active).0 ≡ set_all states keys active
unfolding set_all_or_stop set_all
set_all_or_stop-set_all [] states active h = refl
set_all_or_stop-set_all (key ∷ keys) states active h =
    ground (arith, set_all_or_stop-set_all keys (set_owned_interface states key active).0 active)

-- At most one of the three interfaces of a joint is active.
abbrev pub IsExclusive : CommandModeState → Type 0
IsExclusive s = active_count s ≤ 1

all-IsExclusive_iff :
    (states : List CommandModeState)
    → (all (λ s. not (ltb 1 (active_count s))) states ≡ true) ↔ All IsExclusive states
all-IsExclusive_iff [] = (λ _. tt, λ _. refl)
all-IsExclusive_iff (s ∷ states) = (
  λ h. (ground arith, (all-IsExclusive_iff states).0 (ground arith)),
  λ h. let rest = (all-IsExclusive_iff states).1 h.1 in let one = h.0 in ground arith,
)

-- The switch is accepted exactly when every key to stop or to start is acceptable to these joints and
-- `command_modes_after_switch` leaves each joint with at most one active interface.
pub validate_command_mode_switch_iff :
    (states : List CommandModeState) (start stop : List Text)
    → (validate_command_mode_switch states start stop ≡ true) ↔ (
        All (IsAcceptable states) stop
        × All (IsAcceptable states) start
        × All IsExclusive (command_modes_after_switch states start stop))
unfolding validate_command_mode_switch command_modes_after_switch
validate_command_mode_switch_iff states start stop = (accepted, acceptable)
  where
    stopped : List CommandModeState
    stopped = (set_all_or_stop states stop false).0

    resulting : List CommandModeState
    resulting = (set_all_or_stop stopped start true).0

    same : (set_all_or_stop states stop false).1 ≡ true → names stopped ≡ names states
    same stop_ok =
        ap names (set_all_or_stop-set_all stop states false stop_ok)
        ∙ set_all-names stop states false

    agree :
        (set_all_or_stop states stop false).1 ≡ true
        → (set_all_or_stop stopped start true).1 ≡ true
        → resulting ≡ set_all (set_all states stop false) start true
    agree stop_ok start_ok =
        set_all_or_stop-set_all start stopped true start_ok
        ∙ ap (λ s. set_all s start true) (set_all_or_stop-set_all stop states false stop_ok)

    accepted :
        validate_command_mode_switch states start stop ≡ true
        → All (IsAcceptable states) stop
          × All (IsAcceptable states) start
          × All IsExclusive (set_all (set_all states stop false) start true)
    accepted h =
        let stop_ok : (set_all_or_stop states stop false).1 ≡ true = ground arith in
        let start_ok : (set_all_or_stop stopped start true).1 ≡ true = ground arith in
        let few : all (λ s. not (ltb 1 (active_count s))) resulting ≡ true = ground arith in
        (
          (set_all_or_stop_iff stop states false).0 stop_ok,
          All-IsAcceptable-names stopped states start (same stop_ok)
              ((set_all_or_stop_iff start stopped true).0 start_ok),
          subst (All IsExclusive) (agree stop_ok start_ok) ((all-IsExclusive_iff resulting).0 few),
        )

    acceptable :
        All (IsAcceptable states) stop
          × All (IsAcceptable states) start
          × All IsExclusive (set_all (set_all states stop false) start true)
        → validate_command_mode_switch states start stop ≡ true
    acceptable (hstop, hstart, exclusive) =
        let stop_ok = (set_all_or_stop_iff stop states false).1 hstop in
        let start_ok =
          (set_all_or_stop_iff start stopped true).1
            (All-IsAcceptable-names states stopped start (sym (same stop_ok)) hstart) in
        let few =
          (all-IsExclusive_iff resulting).1
            (subst (All IsExclusive) (sym (agree stop_ok start_ok)) exclusive) in
        ground arith
