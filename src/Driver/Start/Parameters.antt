-- ===== src/Driver/Start/Parameters.antt =====
-- What a confirmed write of a parameter has found.
use robstride_ros.Prelude.{
  ℕ, zero, suc, ◌+◌, ◌≤◌, true, some, ◌≡◌, arith, inl, inr, Option-cases, Bool-cases, get_elem?,
}
use robstride_ros.Double.{Double}
use robstride_ros.Joint.{JointData}
use robstride_ros.Driver.State.{Driver}
use robstride_ros.Driver.Start.{
  Round, write_and_confirm, write_and_confirm_parameter, parameter_confirmed, hear,
  request_parameter,
}

module _ {W : Type 0} ⦃d : Double W⦄ where
  parameter_confirmed_sound :
      (i index value since : ℕ) (u : Driver W)
      → parameter_confirmed i index value since u ≡ true
      → (k : JointData W) × (get_elem? u.joints i ≡ some k)
        × (k.parameter_status.received ≡ true)
        × (k.parameter_status.index ≡ index)
        × (k.parameter_status.value ≡ value)
        × (since ≤ k.parameter_status.timestamp)
  unfolding parameter_confirmed
  parameter_confirmed_sound i index value since u h = elim (Option-cases (get_elem? u.joints i)) [
    | inl missing ↦ ground (arith, missing)
    | inr (k, found) ↦ (
      k,
      found,
      ground (arith, found),
      ground (arith, found),
      ground (arith, found),
      ground (arith, found),
    )
  ]

  write_and_confirm_sound :
      (n attempt : ℕ) (rounds : ℕ → Round) (i : ℕ) (j : JointData W) (index value : ℕ)
      (v : Driver W)
      → (write_and_confirm n attempt rounds i j index value v).1 ≡ true
      → (late : ℕ) × (k : JointData W) × (get_elem?
            (write_and_confirm n attempt rounds i j index value v).0.joints
            i
          ≡ some k)
        × (k.parameter_status.received ≡ true)
        × (k.parameter_status.index ≡ index)
        × (k.parameter_status.value ≡ value)
        × ((rounds late).requested_at ≤ k.parameter_status.timestamp)
  unfolding write_and_confirm
  write_and_confirm_sound zero attempt rounds i j index value v h = ground arith
  write_and_confirm_sound (suc n) attempt rounds i j index value v h =
      let since = (rounds attempt).requested_at in
      let u = hear (rounds attempt).heard (request_parameter j index value v) in
      elim (Bool-cases (parameter_confirmed i index value since u)) [
        | inl confirmed ↦
            let (k, found, received, same, equal, late) =
              parameter_confirmed_sound i index value since u confirmed in
            rw confirmed (attempt, k, found, received, same, equal, late)
        | inr waiting ↦ rw waiting (
            write_and_confirm_sound n (attempt + 1) rounds i j index value u
              (ground (arith, waiting)))
      ]

  -- If the write of a parameter is reported as confirmed, then the joint's last parameter response
  -- has this index and value, and is not older than an attempt of the call.
  pub write_and_confirm_parameter_sound :
      (rounds : ℕ → Round) (i : ℕ) (j : JointData W) (index value : ℕ) (v : Driver W)
      → (write_and_confirm_parameter rounds i j index value v).1 ≡ true
      → (attempt : ℕ) × (k : JointData W) × (get_elem?
            (write_and_confirm_parameter rounds i j index value v).0.joints
            i
          ≡ some k)
        × (k.parameter_status.received ≡ true)
        × (k.parameter_status.index ≡ index)
        × (k.parameter_status.value ≡ value)
        × ((rounds attempt).requested_at ≤ k.parameter_status.timestamp)
  unfolding write_and_confirm_parameter
  write_and_confirm_parameter_sound rounds i j index value v h =
      write_and_confirm_sound v.settings.startup_retries 1 rounds i j index value v h
