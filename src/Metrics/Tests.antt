-- ===== src/Metrics/Tests.antt =====
-- robstride_driver/src/metrics.cpp at concrete inputs.
use robstride_ros.Prelude.{ℕ, ◌≡◌, refl, true, some, List, [], ◌∷◌, bytes, map, ◌++◌}
use robstride_ros.Prelude.Int.{pos}
use robstride_ros.Double.Fixed.{Fixed, fixed_double}
use robstride_ros.Driver.State.{MotorFeedbackSample}
use robstride_ros.Metrics.{motor_fault_summary, motor_fault_names, names_from}
use robstride_ros.Metrics.Sequence.{
  copy_member, idle, returned, Move, call_store, write, call_load, read, begin_store,
  continue_store, continue_load, move, run, fresh_lock,
}
use robstride_ros.Metrics.Sound.{IsNewest}
use robstride_ros.Metrics.Whole.{is_complete, run-load}

two_faults : motor_fault_summary 0b100010 ≡ bytes "overcurrent, encoder uncalibrated"
unfolding motor_fault_summary motor_fault_names names_from
two_faults = refl

abbrev first_sample : MotorFeedbackSample Fixed
first_sample = record {
  count = 1;
  last_received_at_ns = 100;
  maximum_gap_ns = 90;
  mode = 2;
  fault_flags = 0;
  temperature = some (pos 25000);
}

-- The members are stored in another order than that of the code.
abbrev store_once : List (Move Fixed)
store_once = call_store first_sample ∷ map write (3 ∷ 0 ∷ 5 ∷ 1 ∷ 2 ∷ 4 ∷ 0 ∷ [])

stored_once : (run store_once fresh_lock).storing ≡ idle
unfolding run move begin_store continue_store copy_member
stored_once = refl

-- The last load of the sequence takes effect among those of the members.
abbrev loads : List ℕ
loads = 2 ∷ 6 ∷ 0 ∷ 1 ∷ 3 ∷ 5 ∷ 4 ∷ []

all_loads : is_complete loads ≡ true
unfolding is_complete
all_loads = refl

run-load_example :
    (x : MotorFeedbackSample Fixed) × ((run
        (call_load ∷ read 6 ∷ map read loads)
        (run store_once fresh_lock)).loading
      ≡ returned x)
    × IsNewest x (run store_once fresh_lock).stored
run-load_example = run-load store_once loads stored_once all_loads

-- A store that comes in between: the load of the count takes effect before it, and those of the other
-- members after the second load of the sequence.
abbrev torn : List (Move Fixed)
torn =
    read 6 ∷ read 0 ∷ read 6 ∷ call_store first_sample ∷ map write (0 ∷ 1 ∷ 2 ∷ 3 ∷ 4 ∷ 5 ∷ 6 ∷ [])
    ++ map read (1 ∷ 2 ∷ 3 ∷ 4 ∷ 5 ∷ [])

torn_sample : (run torn fresh_lock).loading ≡ returned (record first_sample { count = 0 })
unfolding run move begin_store continue_store continue_load copy_member
torn_sample = refl
