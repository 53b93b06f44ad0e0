-- ===== src/System/Run/Kept.antt =====
-- What every call keeps: the driver's skeleton and the bindings of the exports.
use robstride_ros.Prelude.{
  ℕ, ◌+◌, Bool, true, false, if◌then◌else◌, List, [], ◌∷◌, ◌≡◌, refl, sym, ◌∙◌, ap, arith, map,
  length, length-map, Text,
}
use robstride_ros.Double.{Double}
use robstride_ros.Joint.{JointData}
use robstride_ros.Transport.State.{Transport}
use robstride_ros.CommandMode.{command_modes_after_switch}
use robstride_ros.Driver.Start.{Waits, start}
use robstride_ros.Driver.Skeleton.{Skeleton, setup, setups, skeleton, IsSized}
use robstride_ros.Driver.Skeleton.Operations.{
  setups-map, apply_command_modes-skeleton, send_commands-skeleton, update_state-skeleton,
}
use robstride_ros.Driver.Skeleton.Starting.{start-skeleton, stop-skeleton}
use robstride_ros.System.Bindings.{consume}
use robstride_ros.System.State.{System, state_bindings, command_bindings, current_command_modes}
use robstride_ros.System.Lifecycle.{publish_states, publish_commands, on_activate}
use robstride_ros.System.Cycle.{read, write}
use robstride_ros.System.Switch.{claimed_by, perform_command_mode_switch}
use robstride_ros.System.Consume.{commanded, unsampled, consume_lem}

module _ {W : Type 0} ⦃d : Double W⦄ where
  -- The driver has this skeleton, whose metrics have an entry for each joint, and the bindings are
  -- those of its joints.
  pub record IsKept (k : Skeleton W) (s : System W) : Type 0 where
    pub kept : skeleton s.driver ≡ k
    pub feedback_sized : k.feedback_samples ≡ length k.joints
    pub recovery_sized : k.recovery_samples ≡ length k.joints
    pub states_bound : s.states ≡ state_bindings 0 k.joints
    pub commands_bound : map unsampled s.commands ≡ command_bindings 0 k.joints

  -- The bindings depend on the skeleton alone.
  pub state_bindings-setups :
      (i : ℕ) (joints : List (JointData W))
      → state_bindings i (setups joints) ≡ state_bindings i joints
  unfolding state_bindings
  state_bindings-setups i [] = refl
  state_bindings-setups i (j ∷ joints) = rw (state_bindings-setups (i + 1) joints) refl

  pub command_bindings-setups :
      (i : ℕ) (joints : List (JointData W))
      → command_bindings i (setups joints) ≡ command_bindings i joints
  unfolding command_bindings
  command_bindings-setups i [] = refl
  command_bindings-setups i (j ∷ joints) = rw (command_bindings-setups (i + 1) joints) refl

  pub kept-IsSized : {k : Skeleton W} {s : System W} → IsKept k s → IsSized s.driver
  kept-IsSized {k} {s} c =
      let joints = length-map setup s.driver.joints in
      let same = ap (λ (x : Skeleton W). length x.joints) c.kept in
      let samples = ap (λ (x : Skeleton W). x.feedback_samples) c.kept in
      let attempts = ap (λ (x : Skeleton W). x.recovery_samples) c.kept in
      let sized = c.feedback_sized in let sized' = c.recovery_sized in (omega arith, omega arith)

  abbrev pub Same : System W → System W → Type 0
  Same s u =
      (skeleton u.driver ≡ skeleton s.driver)
      × (u.states ≡ s.states)
      × (map unsampled u.commands ≡ map unsampled s.commands)

  pub of_Same : {k : Skeleton W} (s u : System W) → Same s u → IsKept k s → IsKept k u
  of_Same s u (driver, states, commands) c = record {
    kept = driver ∙ c.kept;
    feedback_sized = c.feedback_sized;
    recovery_sized = c.recovery_sized;
    states_bound = states ∙ c.states_bound;
    commands_bound = commands ∙ c.commands_bound;
  }

  pub on_activate-Same :
      (w : Waits) (now : ℕ) (states_free commands_free : ℕ → Bool)
      (meanwhile : Transport → Transport) (s : System W)
      → Same s (on_activate w now states_free commands_free meanwhile s).0
  unfolding on_activate publish_states publish_commands
  on_activate-Same w now states_free commands_free meanwhile s =
      let v = (start w now s.driver).0 in
      let started = start-skeleton w now s.driver in
      let stopped = stop-skeleton meanwhile v in ground arith

  pub read-Same : (now : ℕ) (free : ℕ → Bool) (s : System W) → Same s (read now free s).0
  unfolding read publish_states
  read-Same now free s = let updated = update_state-skeleton now s.driver in ground arith

  pub perform-Same :
      (now : ℕ) (free : ℕ → Bool) (begin end : List Text) (s : System W)
      → Same s (perform_command_mode_switch now free begin end s).0
  unfolding perform_command_mode_switch
  perform-Same now free begin end s =
      let modes =
        claimed_by (command_modes_after_switch (current_command_modes s.driver) begin end) in
      let applied = apply_command_modes-skeleton now modes s.driver in ground arith

  setups-taken :
      (values : Text → W) (taken : Bool) (joints : List (JointData W))
      → setups (if taken then map (commanded values) joints else joints) ≡ setups joints
  setups-taken values true joints = setups-map joints (commanded values) (λ j. refl)
  setups-taken values false joints = refl

  pub kept-bound :
      {k : Skeleton W} {s : System W} → IsKept k s → s.states ≡ state_bindings 0 s.driver.joints
  kept-bound {k} {s} c =
      c.states_bound
      ∙ sym (ap (λ (x : Skeleton W). state_bindings 0 x.joints) c.kept)
      ∙ state_bindings-setups 0 s.driver.joints

  -- A fresh export has no samples.
  pub unsampled-command_bindings :
      (i : ℕ) (joints : List (JointData W))
      → map unsampled (command_bindings i joints) ≡ command_bindings i joints
  unfolding command_bindings
  unsampled-command_bindings i [] = refl
  unsampled-command_bindings i (j ∷ joints) = rw (unsampled-command_bindings (i + 1) joints) refl

  pub kept-exported :
      {k : Skeleton W} {s : System W}
      → IsKept k s
      → map unsampled s.commands ≡ command_bindings 0 s.driver.joints
  kept-exported {k} {s} c =
      c.commands_bound
      ∙ sym (ap (λ (x : Skeleton W). command_bindings 0 x.joints) c.kept)
      ∙ command_bindings-setups 0 s.driver.joints

  pub write-Same :
      (now : ℕ) (free : ℕ → Bool) (s : System W)
      → map unsampled s.commands ≡ command_bindings 0 s.driver.joints
      → Same s (write now free s).0
  unfolding write
  write-Same now free s exported =
      let (changed, rebound) =
        consume_lem free s.command_values s.commands s.driver.joints exported in
      let (bindings, joints, consumed) = consume free s.command_values s.commands s.driver.joints in
      let same : setups joints ≡ setups s.driver.joints =
        ap setups changed ∙ setups-taken s.command_values consumed s.driver.joints in
      let taken = record s.driver { joints = joints } in
      let assigned : skeleton taken ≡ skeleton s.driver =
        ap (λ js. record (skeleton s.driver) { joints = js }) same in
      let sent = send_commands-skeleton now taken in
      let bound : map unsampled bindings ≡ map unsampled s.commands = rebound ∙ sym exported in
      ground arith
