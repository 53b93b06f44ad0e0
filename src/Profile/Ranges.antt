-- ===== src/Profile/Ranges.antt =====
-- The ranges of every motor model.
use robstride_ros.Prelude.{
  ℕ, ◌≤◌, true, some, List, [], ◌∷◌, ◌≡◌, All, inl, inr, Bool-cases, arith, leb, ◌&&◌, Text, bytes,
  text_eq, subst, refl,
}
use robstride_ros.Double.{Double, nought, IsFinite}
use robstride_ros.Double.Laws.{IsIeee}
use robstride_ros.Protocol.{Limits}
use robstride_ros.Profile.{
  Profile, profile, profiles, limits_of, find_profile, motor_profile, four_pi,
}

module _ {W : Type 0} ⦃d : Double W⦄ where
  open d use {of_ℕ, decimal, neg, lt}

  abbrev IsPositive : W → Type 0
  IsPositive x = IsFinite x × (lt nought x ≡ true)

  -- Finite and around zero.
  abbrev pub IsAround : W → W → Type 0
  IsAround lo hi = IsFinite lo × IsFinite hi × (lt lo nought ≡ true) × (lt nought hi ≡ true)

  abbrev pub IsUsable : Limits W → Type 0
  IsUsable l =
      IsAround l.position_min l.position_max
      × IsAround l.velocity_min l.velocity_max
      × IsAround l.effort_min l.effort_max
      × (l.effort_wire_min ≡ l.effort_min)
      × (l.effort_wire_max ≡ l.effort_max)
      × IsPositive l.kp_max
      × IsPositive l.kd_max

  abbrev IsPositiveProfile : Profile W → Type 0
  IsPositiveProfile p =
      IsPositive p.velocity × IsPositive p.effort × IsPositive p.kp × IsPositive p.kd

module _ {W : Type 0} ⦃d : Double W⦄ (laws : IsIeee W) where
  open d use {of_ℕ, decimal, neg, lt}
  open laws use {decimal_pos, neg_pos, of_ℕ-decimal}

  of_ℕ-IsPositive : (n : ℕ) → 1 ≤ n → n ≤ 65535 → IsPositive (of_ℕ n)
  of_ℕ-IsPositive n lo hi = rw (of_ℕ-decimal n hi) (decimal_pos n 0 lo (omega arith))

  neg-IsAround : (x : W) → IsPositive x → IsAround (neg x) x
  neg-IsAround x (finite, positive) =
      let (f, p) = neg_pos x finite positive in (f, finite, p, positive)

  limits_of-IsUsable : (p : Profile W) → IsPositiveProfile p → IsUsable (limits_of p)
  limits_of-IsUsable p (velocity, effort, kp, kd) = (
    neg-IsAround four_pi (decimal_pos 12566370614 9 (omega arith) (omega arith)),
    neg-IsAround p.velocity velocity,
    neg-IsAround p.effort effort,
    refl,
    refl,
    kp,
    kd,
  )

  find_profile-IsUsable :
      (ps : List (Profile W)) (model : Text) (l : Limits W)
      → All IsPositiveProfile ps
      → find_profile ps model ≡ some l
      → IsUsable l
  unfolding find_profile
  find_profile-IsUsable [] model l all_positive h = ground arith
  find_profile-IsUsable (p ∷ ps) model l (one, rest) h = elim (Bool-cases (text_eq p.name model)) [
    | inl found ↦
        let e : limits_of p ≡ l = ground (arith, found) in
        subst IsUsable e (limits_of-IsUsable p one)
    | inr other ↦ find_profile-IsUsable ps model l rest (ground (arith, other))
  ]

  profile-IsPositive :
      (name : Text) (effort : W) (velocity kp kd : ℕ)
      → IsPositive effort
      → (leb 1 velocity && leb velocity 65535) ≡ true
      → (leb 1 kp && leb kp 65535) ≡ true
      → (leb 1 kd && leb kd 65535) ≡ true
      → IsPositiveProfile (profile name (of_ℕ velocity) effort (of_ℕ kp) (of_ℕ kd))
  profile-IsPositive name effort velocity kp kd e v p q = (
    of_ℕ-IsPositive velocity (ground arith) (ground arith),
    e,
    of_ℕ-IsPositive kp (ground arith) (ground arith),
    of_ℕ-IsPositive kd (ground arith) (ground arith),
  )

  whole-IsPositive :
      (name : Text) (velocity effort kp kd : ℕ)
      → (leb 1 velocity && leb velocity 65535) ≡ true
      → (leb 1 effort && leb effort 65535) ≡ true
      → (leb 1 kp && leb kp 65535) ≡ true
      → (leb 1 kd && leb kd 65535) ≡ true
      → IsPositiveProfile (profile name (of_ℕ velocity) (of_ℕ effort) (of_ℕ kp) (of_ℕ kd))
  whole-IsPositive name velocity effort kp kd v e =
      profile-IsPositive name (of_ℕ effort) velocity kp kd
        (of_ℕ-IsPositive effort (ground arith) (ground arith)) v

  profiles-IsPositive : All (IsPositiveProfile {W = W}) profiles
  unfolding profiles
  profiles-IsPositive =
      let rs00 = whole-IsPositive (bytes "RS00") 33 14 500 5 refl refl refl refl in
      let rs01 = whole-IsPositive (bytes "RS01") 44 17 500 5 refl refl refl refl in
      let rs02 = whole-IsPositive (bytes "RS02") 44 17 500 5 refl refl refl refl in
      let rs03 = whole-IsPositive (bytes "RS03") 20 60 5000 100 refl refl refl refl in
      let rs04 = whole-IsPositive (bytes "RS04") 15 120 5000 100 refl refl refl refl in
      let tenths = decimal_pos 55 1 (omega arith) (omega arith) in
      let rs05 = profile-IsPositive (bytes "RS05") (decimal 55 1) 50 500 5 tenths refl refl refl in
      let rs06 = whole-IsPositive (bytes "RS06") 50 36 5000 100 refl refl refl refl in
      let el05 = whole-IsPositive (bytes "EL05") 50 6 500 5 refl refl refl refl in
      (rs00, (rs01, (rs02, (rs03, (rs04, (rs05, (rs06, (el05, tt))))))))

  -- The driver can work with the profile that a motor model has: the ranges of the position, the
  -- velocity and the effort are finite with zero strictly between their ends, the range of the
  -- effort on the wire is that of the effort, and the greatest gains are finite and positive.
  pub motor_profile-IsUsable :
      (model : Text) (l : Limits W) → motor_profile model ≡ some l → IsUsable l
  unfolding motor_profile
  motor_profile-IsUsable model l h = find_profile-IsUsable profiles _ l profiles-IsPositive h
