-- ===== src/Driver/Initialize/Valid.antt =====
-- What `initialize` accepts, and the driver it leaves.
use robstride_ros.Prelude.{
  ℕ, zero, suc, ◌+◌, true, false, ◌||◌, none, some, List, [], ◌∷◌, ◌≡◌, ◌≢◌, refl, sym, ◌∙◌, ap,
  subst, arith, inl, inr, ◌⊎◌, Bool-cases, get_elem?, ◌==◌, ==_iff, &&-eq-true, any, All, All-map,
  is_empty,
}
use robstride_ros.Double.{Double, IsFinite}
use robstride_ros.Joint.{JointData, invalid_neutral_range}
use robstride_ros.Driver.State.{DriverConfiguration, Driver, find}
use robstride_ros.Driver.Initialize.{
  joint_is_valid, joints_are_valid, index_joints, empty_snapshot, initialize, reset_metrics,
  configured,
}
use robstride_ros.Driver.Commands.Batch.{IsNumbered, IsFor}

true≢false : true ≢ false
true≢false e = ground arith

module _ {W : Type 0} ⦃d : Double W⦄ where
  -- The map takes the id of every joint to its index, and nothing else to an index.
  abbrev pub IsIndexed : Driver W → Type 0
  IsIndexed v =
      ((id i : ℕ)
        → find v.can_id_to_joint id ≡ some i
        → (j : JointData W) × (get_elem? v.joints i ≡ some j) × (j.can_id ≡ id))
      × ((i : ℕ) (j : JointData W)
          → get_elem? v.joints i ≡ some j
          → find v.can_id_to_joint j.can_id ≡ some i)

  -- What the operations of an initialised driver rely on.
  abbrev pub IsReady : Driver W → Type 0
  IsReady v =
      IsIndexed v
      × IsNumbered 0 v.command_snapshot
      × IsFor v.joints v.command_snapshot
      × All (λ j. invalid_neutral_range j ≡ none) v.joints

  find-index_joints :
      (k : ℕ) (joints : List (JointData W)) (entries : List (ℕ × ℕ)) (id i : ℕ)
      → find (index_joints k joints entries) id ≡ some i
      → (find entries id ≡ some i)
        ⊎ ((m : ℕ) × (j : JointData W) × (i ≡ k + m)
            × (get_elem? joints m ≡ some j)
            × (j.can_id ≡ id))
  unfolding index_joints
  find-index_joints k [] entries id i h = inl h
  find-index_joints k (x ∷ joints) entries id i h =
      elim (find-index_joints (k + 1) joints ((x.can_id, k) ∷ entries) id i h) [
        | inl here ↦ elim (Bool-cases (x.can_id == id)) [
          | inl same ↦ inr (0, x, ground (arith, same), refl, (==_iff _ _).0 same)
          | inr other ↦ inl (ground (arith, other))
        ]
        | inr (m, j, e, found, same) ↦ inr (suc m, j, omega arith, found, same)
      ]

  joint_is_valid_new :
      (seen : List ℕ) (x : JointData W)
      → joint_is_valid seen x ≡ true
      → any (λ id. id == x.can_id) seen ≡ false
  unfolding joint_is_valid
  joint_is_valid_new seen x h = ground arith

  -- An id that has been seen is not entered again.
  find-index_joints_seen :
      (k : ℕ) (joints : List (JointData W)) (seen : List ℕ) (entries : List (ℕ × ℕ)) (id : ℕ)
      → joints_are_valid seen joints ≡ true
      → any (λ x. x == id) seen ≡ true
      → find (index_joints k joints entries) id ≡ find entries id
  unfolding index_joints joints_are_valid
  find-index_joints_seen k [] seen entries id h s = refl
  find-index_joints_seen k (x ∷ joints) seen entries id h s = elim (Bool-cases (x.can_id == id)) [
    | inl same ↦
        let x≡id = (==_iff x.can_id id).0 same in
        let twice = subst (λ n. any (λ y. y == n) seen ≡ true) (sym x≡id) s in
        let new = joint_is_valid_new seen x (&&-eq-true (joint_is_valid seen x) _ h).0 in
        absurd (true≢false (sym twice ∙ new))
    | inr other ↦
        find-index_joints_seen (k + 1) joints (x.can_id ∷ seen) ((x.can_id, k) ∷ entries) id
          (&&-eq-true (joint_is_valid seen x) _ h).1 (ground (arith, s))
        ∙ ground (arith, other)
  ]

  index_joints_complete :
      (k : ℕ) (joints : List (JointData W)) (seen : List ℕ) (entries : List (ℕ × ℕ))
      → joints_are_valid seen joints ≡ true
      → (i : ℕ) (j : JointData W) → get_elem? joints i ≡ some j
      → find (index_joints k joints entries) j.can_id ≡ some (k + i)
  unfolding index_joints joints_are_valid
  index_joints_complete k [] seen entries h i j found = ground arith
  index_joints_complete k (x ∷ joints) seen entries h zero j found =
      let x≡j : x ≡ j = ground arith in
      let itself : (x.can_id == x.can_id) ≡ true = (==_iff _ _).1 refl in
      let first =
        find-index_joints_seen (k + 1) joints (x.can_id ∷ seen) ((x.can_id, k) ∷ entries) x.can_id
          (&&-eq-true (joint_is_valid seen x) _ h).1 (ground (arith, itself)) in
      subst (λ y. find (index_joints k (x ∷ joints) entries) y.can_id ≡ some (k + 0)) x≡j
        (first ∙ ground (arith, itself))
  index_joints_complete k (x ∷ joints) seen entries h (suc i) j found =
      index_joints_complete (k + 1) joints (x.can_id ∷ seen) ((x.can_id, k) ∷ entries)
        (&&-eq-true (joint_is_valid seen x) _ h).1 i j found
      ∙ ap some (omega arith)

  -- What is checked of every joint.
  abbrev pub IsValidJoint : JointData W → Type 0
  IsValidJoint j =
      (invalid_neutral_range j ≡ none)
      × (j.can_id ≢ 0)
      × (j.can_timeout_ticks ≢ 0)
      × (d.lt j.command_limits.position_min j.command_limits.position_max ≡ true)
      × IsFinite j.command_limits.position_min
      × IsFinite j.command_limits.position_max

  joint_is_valid_sound :
      (seen : List ℕ) (j : JointData W) → joint_is_valid seen j ≡ true → IsValidJoint j
  unfolding joint_is_valid
  joint_is_valid_sound seen j h = ground arith

  joints_are_valid_sound :
      (seen : List ℕ) (joints : List (JointData W))
      → joints_are_valid seen joints ≡ true
      → All IsValidJoint joints
  unfolding joints_are_valid
  joints_are_valid_sound seen [] h = tt
  joints_are_valid_sound seen (j ∷ joints) h =
      let (one, rest) = &&-eq-true (joint_is_valid seen j) _ h in
      (joint_is_valid_sound seen j one, joints_are_valid_sound (j.can_id ∷ seen) joints rest)

  empty_snapshot-IsNumbered :
      (k : ℕ) (joints : List (JointData W)) → IsNumbered k (empty_snapshot k joints)
  unfolding empty_snapshot
  empty_snapshot-IsNumbered k [] = tt
  empty_snapshot-IsNumbered k (j ∷ joints) = (refl, empty_snapshot-IsNumbered (k + 1) joints)

  empty_snapshot-IsFor :
      (k : ℕ) (joints : List (JointData W)) → IsFor joints (empty_snapshot k joints)
  unfolding empty_snapshot
  empty_snapshot-IsFor k [] = tt
  empty_snapshot-IsFor k (j ∷ joints) = empty_snapshot-IsFor (k + 1) joints

  configured-IsReady :
      (c : DriverConfiguration W) (v : Driver W)
      → joints_are_valid [] c.joints ≡ true
      → IsReady (configured c v)
  configured-IsReady c v valid = (
    (
      λ id i h. (elim (find-index_joints 0 c.joints [] id i h) [
        | inl nowhere ↦ ground arith
        | inr (m, j, e, found, same) ↦
            let at_m : m ≡ i = omega arith in
            (j, subst (λ n. get_elem? c.joints n ≡ some j) at_m found, same)
      ]),
      λ i j found. index_joints_complete 0 c.joints [] [] valid i j found ∙ ap some (omega arith),
    ),
    empty_snapshot-IsNumbered 0 c.joints,
    empty_snapshot-IsFor 0 c.joints,
    All-map IsValidJoint (λ j. invalid_neutral_range j ≡ none) (λ j p. p.0) c.joints
        (joints_are_valid_sound [] c.joints valid),
  )

  -- A configuration that is accepted has joints, each of them valid, and the driver is ready then: it
  -- has these joints, its map takes the CAN id of each to its index and no other id to an index, so
  -- the ids differ, and its snapshot has a slot for each.
  pub initialize_accepts :
      (now : ℕ) (c : DriverConfiguration W) (v : Driver W)
      → (initialize now c v).1 ≡ true
      → (c.joints ≢ [])
        × All IsValidJoint c.joints
        × ((initialize now c v).0.joints ≡ c.joints)
        × IsReady (initialize now c v).0
  unfolding initialize reset_metrics
  initialize_accepts now c v ok = elim (Bool-cases (is_empty c.joints)) [
    | inl empty ↦ ground (arith, empty)
    | inr full ↦
        elim (Bool-cases (is_empty c.settings.node_name || c.settings.receive_qos_depth == 0)) [
          | inl bad ↦ ground (arith, full, bad)
          | inr good ↦ elim (Bool-cases (joints_are_valid [] c.joints)) [
            | inr invalid ↦ ground (arith, full, good, invalid)
            | inl valid ↦
                rw (full, good, valid)
                  (
                    (λ none_left. ground (arith, full)),
                    joints_are_valid_sound [] c.joints valid,
                    refl,
                    configured-IsReady c v valid,
                  )
          ]
        ]
  ]
