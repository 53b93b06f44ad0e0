-- ===== src/Driver/Skeleton.antt =====
-- The part of a driver that its configuration fixes, and that no operation changes afterwards.
pub mod Operations
pub mod Ready
pub mod Starting
pub mod Views
use robstride_ros.Prelude.{
  ℕ, zero, suc, Bool, true, false, Option, none, some, List, [], ◌∷◌, ◌≡◌, ◌≢◌, ◌↔◌, refl, sym, ◌∙◌,
  ap, subst, arith, inl, inr, Option-cases, get_elem?, length, length-map, map, All,
}
use robstride_ros.Double.{Double}
use robstride_ros.Recovery.{fresh}
use robstride_ros.Joint.{JointData, no_state, no_command, invalid_neutral_range}
use robstride_ros.Transport.State.{MotorFrame}
use robstride_ros.Driver.State.{DriverSettings, Driver, find}
use robstride_ros.Driver.Commands.Batch.{IsNumbered, IsFor}
use robstride_ros.Driver.Initialize.Valid.{IsReady}

pub record Skeleton (W : Type 0) : Type 0 where
  pub settings : DriverSettings
  pub joints : List (JointData W)
  pub can_id_to_joint : List (ℕ × ℕ)
  pub motor_indices : List ℕ
  pub feedback_samples : ℕ
  pub recovery_samples : ℕ

module _ {W : Type 0} ⦃d : Double W⦄ where
  -- A joint as it was configured.
  abbrev pub setup : JointData W → JointData W
  setup j = record j {
    state = no_state;
    feedback = no_state;
    command = no_command;
    claimed = record { position = false; velocity = false; effort = false };
    feedback_status = record { received = false; mode = 0; timestamp = 0 };
    parameter_status = record { received = false; index = 0; value = 0; timestamp = 0 };
    recovery = fresh;
  }

  abbrev pub setups : List (JointData W) → List (JointData W)
  setups = map setup

  abbrev pub skeleton : Driver W → Skeleton W
  skeleton v = record {
    settings = v.settings;
    joints = setups v.joints;
    can_id_to_joint = v.can_id_to_joint;
    motor_indices = map (λ slot. slot.motor_index) v.command_snapshot;
    feedback_samples = length v.feedback_metrics;
    recovery_samples = length v.recovery_metrics;
  }

  -- Both metrics have an entry for every joint.
  abbrev pub IsSized : Driver W → Type 0
  IsSized v =
      (length v.feedback_metrics ≡ length v.joints) × (length v.recovery_metrics ≡ length v.joints)

  setups-get_elem? :
      (joints : List (JointData W)) (i : ℕ) (j : JointData W)
      → get_elem? joints i ≡ some j
      → get_elem? (setups joints) i ≡ some (setup j)
  setups-get_elem? [] i j found = ground arith
  setups-get_elem? (x ∷ joints) zero j found =
      let same : x ≡ j = ground arith in ap (λ y. some (setup y)) same
  setups-get_elem? (x ∷ joints) (suc i) j found = setups-get_elem? joints i j found

  get_elem?-setups :
      (joints : List (JointData W)) (i : ℕ) (s : JointData W)
      → get_elem? (setups joints) i ≡ some s
      → (j : JointData W) × (get_elem? joints i ≡ some j) × (setup j ≡ s)
  get_elem?-setups [] i s found = ground arith
  get_elem?-setups (x ∷ joints) zero s found =
      let same : setup x ≡ s = ground arith in (x, refl, same)
  get_elem?-setups (x ∷ joints) (suc i) s found = get_elem?-setups joints i s found

  -- Joints of one configuration are the same but for what changes while they run.
  pub setups-joint :
      (old new : List (JointData W)) (i : ℕ) (j : JointData W)
      → setups new ≡ setups old
      → get_elem? new i ≡ some j
      → (k : JointData W) × (get_elem? old i ≡ some k) × (setup k ≡ setup j)
  setups-joint old new i j same found =
      get_elem?-setups old i (setup j)
        (subst (λ js. get_elem? js i ≡ some (setup j)) same (setups-get_elem? new i j found))
