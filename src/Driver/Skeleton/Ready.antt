-- ===== src/Driver/Skeleton/Ready.antt =====
-- Whether a driver is ready depends on its skeleton alone.
use robstride_ros.Prelude.{
  ℕ, suc, ◌+◌, none, some, List, [], ◌∷◌, ◌≡◌, refl, sym, ◌∙◌, ap, subst, arith, length, length-map,
  map, All,
}
use robstride_ros.Double.{Double}
use robstride_ros.Joint.{JointData, invalid_neutral_range}
use robstride_ros.Transport.State.{MotorFrame}
use robstride_ros.Driver.State.{Driver, find}
use robstride_ros.Driver.Commands.Batch.{IsNumbered, IsFor}
use robstride_ros.Driver.Initialize.Valid.{IsIndexed, IsReady}
use robstride_ros.Driver.Skeleton.{Skeleton, setup, setups, skeleton, setups-joint}

abbrev indices : List MotorFrame → List ℕ
indices = map λ slot. slot.motor_index

indices-IsNumbered :
    (i : ℕ) (xs ys : List MotorFrame) → indices xs ≡ indices ys → IsNumbered i ys → IsNumbered i xs
indices-IsNumbered i [] ys e h = tt
indices-IsNumbered i (x ∷ xs) [] e h = absurd (cc)
indices-IsNumbered i (x ∷ xs) (y ∷ ys) e (h, rest) =
    (ground (arith), indices-IsNumbered (i + 1) xs ys (cc) rest)

module _ {W : Type 0} ⦃d : Double W⦄ where
  IsFor-length :
      (joints : List (JointData W)) (slots : List MotorFrame)
      → IsFor joints slots
      → length slots ≡ length joints
  IsFor-length [] [] h = refl
  IsFor-length [] (slot ∷ slots) h = elim h [ ]
  IsFor-length (j ∷ joints) [] h = elim h [ ]
  IsFor-length (j ∷ joints) (slot ∷ slots) h = ap suc (IsFor-length joints slots h)

  length-IsFor :
      (joints : List (JointData W)) (slots : List MotorFrame)
      → length slots ≡ length joints
      → IsFor joints slots
  length-IsFor [] [] h = tt
  length-IsFor [] (slot ∷ slots) h = omega arith
  length-IsFor (j ∷ joints) [] h = omega arith
  length-IsFor (j ∷ joints) (slot ∷ slots) h = length-IsFor joints slots (omega arith)

  All-setups :
      (joints : List (JointData W))
      → All (λ j. invalid_neutral_range j ≡ none) joints
      → All (λ j. invalid_neutral_range j ≡ none) (setups joints)
  unfolding invalid_neutral_range
  All-setups [] all = tt
  All-setups (j ∷ joints) (one, all) = (one, All-setups joints all)

  setups-All :
      (joints : List (JointData W))
      → All (λ j. invalid_neutral_range j ≡ none) (setups joints)
      → All (λ j. invalid_neutral_range j ≡ none) joints
  unfolding invalid_neutral_range
  setups-All [] all = tt
  setups-All (j ∷ joints) (one, all) = (one, setups-All joints all)

  pub IsIndexed-skeleton : (u v : Driver W) → skeleton u ≡ skeleton v → IsIndexed v → IsIndexed u
  IsIndexed-skeleton u v same (back, forth) =
      let joints : setups u.joints ≡ setups v.joints = ap (λ (k : Skeleton W). k.joints) same in
      let ids : u.can_id_to_joint ≡ v.can_id_to_joint =
        ap (λ (k : Skeleton W). k.can_id_to_joint) same in
      (
        λ id i h.
            let (j, found, is) = back id i (rw (sym ids) h) in
            let (k, found', alike) = setups-joint u.joints v.joints i j (sym joints) found in
            (k, found', ap (λ (x : JointData W). x.can_id) alike ∙ is),
        λ i j found.
            let (k, found', alike) = setups-joint v.joints u.joints i j joints found in
            let is : k.can_id ≡ j.can_id = ap (λ (x : JointData W). x.can_id) alike in
            rw ids (subst (λ id. find v.can_id_to_joint id ≡ some i) is (forth i k found')),
      )

  pub IsReady-skeleton : (u v : Driver W) → skeleton u ≡ skeleton v → IsReady v → IsReady u
  IsReady-skeleton u v same (indexed, numbered, slotted, neutral) =
      let joints : setups u.joints ≡ setups v.joints = ap (λ (k : Skeleton W). k.joints) same in
      let motors : indices u.command_snapshot ≡ indices v.command_snapshot =
        ap (λ (k : Skeleton W). k.motor_indices) same in
      let same_joints = ap (λ (l : List (JointData W)). length l) joints in
      let same_slots = ap (λ (l : List ℕ). length l) motors in
      let new_joints = length-map setup u.joints in
      let old_joints = length-map setup v.joints in
      let new_slots = length-map (λ (slot : MotorFrame). slot.motor_index) u.command_snapshot in
      let old_slots = length-map (λ (slot : MotorFrame). slot.motor_index) v.command_snapshot in
      let paired = IsFor-length v.joints v.command_snapshot slotted in
      (
        IsIndexed-skeleton u v same indexed,
        indices-IsNumbered 0 u.command_snapshot v.command_snapshot motors numbered,
        length-IsFor u.joints u.command_snapshot (omega arith),
        setups-All u.joints (
            subst (All (λ j. invalid_neutral_range j ≡ none)) (sym joints)
              (All-setups v.joints neutral)),
      )
