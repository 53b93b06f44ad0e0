-- ===== src/CommandMode/Switch.antt =====
-- `command_modes_after_switch` as a function of each joint: the keys that name its interfaces decide.
use robstride_ros.Prelude.{
  ◌≡◌, ◌≢◌, refl, inl, inr, Bool, true, false, Option, none, some, List, [], ◌∷◌, arith, Text,
  text_eq, any, All, map, if◌then◌else◌, Bool-cases, sym, ◌∙◌,
}
use robstride_ros.CommandMode.{
  CommandModeState, position_key, velocity_key, effort_key, set_first, set_owned_interface, set_all,
  command_modes_after_switch,
}
use robstride_ros.CommandMode.Keys.{Interface, position, velocity, effort, key_of, key_of-injective}

-- No two joints have one name.
abbrev pub IsDistinct : List CommandModeState → Type 0
IsDistinct [] = Unit
IsDistinct (s ∷ states) = All (λ t. s.joint_name ≢ t.joint_name) states × IsDistinct states

-- A flag after a key: changed if the key is its own.
abbrev touched : Text → Bool → Text → Bool → Bool
touched key active own flag = if text_eq key own then active else flag

abbrev touch : Text → Bool → CommandModeState → CommandModeState
touch key active s = record s {
  position_active = touched key active (position_key s.joint_name) s.position_active;
  velocity_active = touched key active (velocity_key s.joint_name) s.velocity_active;
  effort_active = touched key active (effort_key s.joint_name) s.effort_active;
}

-- A key of another joint changes nothing.
untouched :
    (key : Text) (active : Bool) (name : Text) (i : Interface) (states : List CommandModeState)
    → text_eq key (key_of name i) ≡ true
    → All (λ t. name ≢ t.joint_name) states
    → map (touch key active) states ≡ states
untouched key active name i [] h others = refl
untouched key active name i (t ∷ states) h (other, others) =
    ground
      (arith, own position, own velocity, own effort, untouched key active name i states h others)
  where
    own : (j : Interface) → text_eq key (key_of t.joint_name j) ≡ false
    own j = elim (Bool-cases (text_eq key (key_of t.joint_name j))) [
      | inl same ↦ absurd (other (key_of-injective key name t.joint_name i j h same).0)
      | inr different ↦ different
    ]

abbrev first_or : List CommandModeState → Option (List CommandModeState) → List CommandModeState
first_or states none = states
first_or states (some changed) = changed

set_first-map :
    (key : Text) (active : Bool) (states : List CommandModeState)
    → IsDistinct states
    → first_or states (set_first states key active) ≡ map (touch key active) states
unfolding set_first
set_first-map key active [] distinct = refl
set_first-map key active (s ∷ states) (others, distinct) = ground (
  arith,
  apart position velocity (λ e. cc),
  apart position effort (λ e. cc),
  apart velocity effort (λ e. cc),
  untouched key active s.joint_name position states,
  untouched key active s.joint_name velocity states,
  untouched key active s.joint_name effort states,
  set_first-map key active states distinct,
)
  where
    apart :
        (i j : Interface)
        → i ≢ j
        → text_eq key (key_of s.joint_name i) ≡ true
        → text_eq key (key_of s.joint_name j) ≡ false
    apart i j ne h = elim (Bool-cases (text_eq key (key_of s.joint_name j))) [
      | inl same ↦ absurd (ne (key_of-injective key s.joint_name s.joint_name i j h same).1)
      | inr different ↦ different
    ]

set_owned_interface-map :
    (key : Text) (active : Bool) (states : List CommandModeState)
    → IsDistinct states
    → (set_owned_interface states key active).0 ≡ map (touch key active) states
unfolding set_owned_interface
set_owned_interface-map key active states distinct =
    ground (arith, set_first-map key active states distinct)

names-touch :
    (key : Text) (active : Bool) (name : Text) (states : List CommandModeState)
    → All (λ t. name ≢ t.joint_name) states
    → All (λ t. name ≢ t.joint_name) (map (touch key active) states)
names-touch key active name [] h = tt
names-touch key active name (t ∷ states) (h, hs) = (h, names-touch key active name states hs)

touch-IsDistinct :
    (key : Text) (active : Bool) (states : List CommandModeState)
    → IsDistinct states
    → IsDistinct (map (touch key active) states)
touch-IsDistinct key active [] d = tt
touch-IsDistinct key active (s ∷ states) (others, d) =
    (names-touch key active s.joint_name states others, touch-IsDistinct key active states d)

-- Whether a key stands in a list of keys.
abbrev pub mentions : List Text → Text → Bool
mentions keys own = any (λ key. text_eq key own) keys

abbrev set_by : List Text → Bool → CommandModeState → CommandModeState
set_by keys active s = record s {
  position_active = if mentions keys (position_key s.joint_name) then active else s.position_active;
  velocity_active = if mentions keys (velocity_key s.joint_name) then active else s.velocity_active;
  effort_active = if mentions keys (effort_key s.joint_name) then active else s.effort_active;
}

set_by-touch :
    (key : Text) (keys : List Text) (active : Bool) (s : CommandModeState)
    → set_by keys active (touch key active s) ≡ set_by (key ∷ keys) active s
set_by-touch key keys active s = ground arith

map-set_by-touch :
    (key : Text) (keys : List Text) (active : Bool) (states : List CommandModeState)
    → map (set_by keys active) (map (touch key active) states)
      ≡ map (set_by (key ∷ keys) active) states
map-set_by-touch key keys active [] = refl
map-set_by-touch key keys active (s ∷ states) =
    cc (set_by-touch key keys active s, map-set_by-touch key keys active states)

map-set_by-nil :
    (active : Bool) (states : List CommandModeState) → map (set_by [] active) states ≡ states
map-set_by-nil active [] = refl
map-set_by-nil active (s ∷ states) = cc (map-set_by-nil active states)

set_all-map :
    (keys : List Text) (states : List CommandModeState) (active : Bool)
    → IsDistinct states
    → (set_all states keys active ≡ map (set_by keys active) states)
unfolding set_all
set_all-map [] states active d = sym (map-set_by-nil active states)
set_all-map (key ∷ keys) states active d = rw (set_owned_interface-map key active states d) (
    set_all-map keys (map (touch key active) states) active (touch-IsDistinct key active states d)
    ∙ map-set_by-touch key keys active states)

names-set_by :
    (keys : List Text) (active : Bool) (name : Text) (states : List CommandModeState)
    → All (λ t. name ≢ t.joint_name) states
    → All (λ t. name ≢ t.joint_name) (map (set_by keys active) states)
names-set_by keys active name [] h = tt
names-set_by keys active name (t ∷ states) (h, hs) = (h, names-set_by keys active name states hs)

set_by-IsDistinct :
    (keys : List Text) (active : Bool) (states : List CommandModeState)
    → IsDistinct states
    → IsDistinct (map (set_by keys active) states)
set_by-IsDistinct keys active [] d = tt
set_by-IsDistinct keys active (s ∷ states) (others, d) =
    (names-set_by keys active s.joint_name states others, set_by-IsDistinct keys active states d)

-- A flag after a switch: started keys win over stopped ones, and an interface that no key names stays.
abbrev pub flag_after : List Text → List Text → Text → Bool → Bool
flag_after start stop own flag =
    if mentions start own then true else if mentions stop own then false else flag

abbrev pub state_after : List Text → List Text → CommandModeState → CommandModeState
state_after start stop s = record s {
  position_active = flag_after start stop (position_key s.joint_name) s.position_active;
  velocity_active = flag_after start stop (velocity_key s.joint_name) s.velocity_active;
  effort_active = flag_after start stop (effort_key s.joint_name) s.effort_active;
}

map-state_after :
    (start stop : List Text) (states : List CommandModeState)
    → map (set_by start true) (map (set_by stop false) states) ≡ map (state_after start stop) states
map-state_after start stop [] = refl
map-state_after start stop (s ∷ states) = cc (map-state_after start stop states)

-- For joints with distinct names, the modes after a switch are those before it with each flag set by
-- the keys alone: an interface that is to start is active, else one that is to stop is not, else it
-- is as before. Names and order stay, and keys of other joints or interfaces change nothing.
pub command_modes_after_switch_lem :
    (states : List CommandModeState) (start stop : List Text)
    → IsDistinct states
    → command_modes_after_switch states start stop ≡ map (state_after start stop) states
unfolding command_modes_after_switch
command_modes_after_switch_lem states start stop d = rw (set_all-map stop states false d) (
    set_all-map start (map (set_by stop false) states) true (set_by-IsDistinct stop false states d)
    ∙ map-state_after start stop states)
