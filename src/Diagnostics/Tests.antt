-- ===== src/Diagnostics/Tests.antt =====
-- The diagnostics at concrete inputs.
use robstride_ros.Prelude.{◌≡◌, ◌↔◌, refl, true, false, some, bytes}
use robstride_ros.Prelude.Int.{pos}
use robstride_ros.Double.Fixed.{Fixed, fixed_double}
use robstride_ros.Joint.Tests.{joint}
use robstride_ros.Driver.State.{MotorFeedbackSample, RecoveryMetrics}
use robstride_ros.Driver.Measure.{motor_metrics}
use robstride_ros.Diagnostics.{ok, motor_level, motor_message}
use robstride_ros.Diagnostics.Levels.{IsInOrder, motor_level-ok_iff}

abbrev sample : MotorFeedbackSample Fixed
sample = record {
  count = 4;
  last_received_at_ns = 100;
  maximum_gap_ns = 90;
  mode = 2;
  fault_flags = 0;
  temperature = some (pos 25000);
}

abbrev no_recovery : RecoveryMetrics
no_recovery = record { active = false; attempts = 0 }

-- A second after the last feedback, with a timeout of half a second.
stale :
    motor_message true (motor_metrics 500 1_000_000_000 1_000_000_100 joint sample no_recovery)
    ≡ bytes "Motor feedback is stale"
unfolding motor_message motor_metrics
stale = refl

motor_level-ok_iff_example :
    (motor_level true (motor_metrics 3000 200 300 joint sample no_recovery) ≡ ok)
    ↔ IsInOrder true 3000 300 sample no_recovery
motor_level-ok_iff_example = motor_level-ok_iff true 3000 200 300 joint sample no_recovery
