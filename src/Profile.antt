-- ===== src/Profile.antt =====
-- robstride_driver/src/motor_profile.cpp: the ranges of the motor models. An unknown model throws,
-- which is `none`.
pub mod Ranges
use robstride_ros.Prelude.{
  Bool, true, false, Option, none, some, List, [], ◌∷◌, if◌then◌else◌, Text, bytes, text_eq,
}
use robstride_ros.Double.{Double}
use robstride_ros.Protocol.{Limits}

pub record Profile (W : Type 0) : Type 0 where
  pub name : Text
  pub velocity : W
  pub effort : W
  pub kp : W
  pub kd : W

module _ {W : Type 0} ⦃d : Double W⦄ where
  open d use {of_ℕ, decimal, neg}

  abbrev pub profile : Text → W → W → W → W → Profile W
  profile name velocity effort kp kd = record {
    name = name;
    velocity = velocity;
    effort = effort;
    kp = kp;
    kd = kd;
  }

  unfoldable pub profiles : List (Profile W)
  profiles =
      profile (bytes "RS00") (of_ℕ 33) (of_ℕ 14) (of_ℕ 500) (of_ℕ 5)
      ∷ profile (bytes "RS01") (of_ℕ 44) (of_ℕ 17) (of_ℕ 500) (of_ℕ 5)
      ∷ profile (bytes "RS02") (of_ℕ 44) (of_ℕ 17) (of_ℕ 500) (of_ℕ 5)
      ∷ profile (bytes "RS03") (of_ℕ 20) (of_ℕ 60) (of_ℕ 5000) (of_ℕ 100)
      ∷ profile (bytes "RS04") (of_ℕ 15) (of_ℕ 120) (of_ℕ 5000) (of_ℕ 100)
      ∷ profile (bytes "RS05") (of_ℕ 50) (decimal 55 1) (of_ℕ 500) (of_ℕ 5)
      ∷ profile (bytes "RS06") (of_ℕ 50) (of_ℕ 36) (of_ℕ 5000) (of_ℕ 100)
      ∷ profile (bytes "EL05") (of_ℕ 50) (of_ℕ 6) (of_ℕ 500) (of_ℕ 5)
      ∷ []

  -- The literal 12.566370614.
  abbrev pub four_pi : W
  four_pi = decimal 12566370614 9

  abbrev pub limits_of : Profile W → Limits W
  limits_of p = record {
    position_min = neg four_pi;
    position_max = four_pi;
    velocity_min = neg p.velocity;
    velocity_max = p.velocity;
    effort_min = neg p.effort;
    effort_max = p.effort;
    effort_wire_min = neg p.effort;
    effort_wire_max = p.effort;
    kp_max = p.kp;
    kd_max = p.kd;
  }

  -- The loop over the profiles.
  unfoldable pub find_profile : List (Profile W) → Text → Option (Limits W)
  find_profile [] model = none
  find_profile (p ∷ rest) model =
      let later = find_profile rest model in
      if text_eq p.name model then some (limits_of p) else later

  unfoldable pub motor_profile : Text → Option (Limits W)
  unfolding profiles find_profile
  motor_profile model =
      find_profile profiles (if text_eq model (bytes "EduLite05") then bytes "EL05" else model)
