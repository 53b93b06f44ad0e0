-- ===== src/Transport/Tests.antt =====
-- robstride_driver/src/can_transport.cpp in short runs of its threads.
use robstride_ros.Prelude.{
  ◌+◌, ◌≡◌, ◌↔◌, refl, true, false, List, [], ◌∷◌, ◌++◌, All, arith, length, get_elem?, some,
}
use robstride_ros.Protocol.{Frame, make_stop}
use robstride_ros.Transport.State.{
  MotorFrame, Sent, Transport, transaction, create, open_active_commands, disable_active_commands,
  has_failed, has_sendable_active_frame,
}
use robstride_ros.Transport.Publish.{Endpoint, endpoint_available, publish_transaction}
use robstride_ros.Transport.Queue.{
  queue_motion_frames_locked, queue_motion_frames, send_transaction,
}
use robstride_ros.Transport.Worker.{Batch, waiting, exited, take_batch, wake, send_next}
use robstride_ros.Transport.Lifecycle.{halt, drained, finish_stop, reset}
use robstride_ros.Transport.System.{
  System, Step, wakes, sends, submits, queues, opens, starts, after, created, Reach, here, next,
  HasRoom,
}
use robstride_ros.Transport.Drain.{work}
use robstride_ros.Transport.Drain.Ends.{work-ends}
use robstride_ros.Transport.Health.{health, IsWorking, IsOlder, health_persistent_iff}
use robstride_ros.Transport.System.Keeps.{IsSince}
use robstride_ros.Transport.System.Slots.{IsSlotted}
use robstride_ros.Transport.System.Slots.Turns.{IsOrdered}
use robstride_ros.Transport.System.Slots.Sound.{Reach-IsOrdered}
use robstride_ros.Transport.Queue.Latest.{queue_motion_frames_last}
use robstride_ros.Transport.System.Fresh.{disable_active_commands_final}
use robstride_ros.Transport.System.Fifo.{Move, view, Step-Move}
use robstride_ros.Transport.System.Flight.{drained_sound}

-- An endpoint that takes every frame.
abbrev pub sink : Endpoint
sink = record {
  has_probe = false;
  has_sink = true;
  has_publisher = false;
  probe_says = false;
  has_subscription = false;
  probe_throws = false;
  publish_throws = false;
}

abbrev stop_frame : Frame
stop_frame = make_stop 7 253 false

abbrev started : System
started = record {
  transport = record (reset sink 5 (finish_stop (create 1))) { running = true };
  worker = waiting;
}

starting : Reach (created 1) started
starting = next here (starts sink 5 refl refl)

abbrev submitted : System
submitted = record started { transport = send_transaction stop_frame started.transport }

abbrev awake : System
awake = after (wake submitted.transport)

submitting : Reach (created 1) awake
unfolding create finish_stop reset send_transaction has_sendable_active_frame
submitting = next (next starting (submits stop_frame refl)) (wakes refl refl refl)

abbrev one_frame : Batch
one_frame = record { transactions = stop_frame ∷ []; recovery_frames = []; motion_frames = [] }

abbrev one_sent : System
one_sent = after (send_next sink 6 one_frame 1 awake.transport)

sending_one : Step awake one_sent
unfolding create finish_stop reset send_transaction take_batch wake has_sendable_active_frame
sending_one = sends sink 6 1 one_frame refl (omega arith) refl

Step-Move_example : Move (view awake) (view one_sent)
Step-Move_example = Step-Move sending_one

abbrev none_left : Batch
none_left = record { transactions = []; recovery_frames = []; motion_frames = [] }

abbrev at_rest : System
at_rest = after (send_next sink 7 none_left 1 one_sent.transport)

resting : Reach (created 1) at_rest
unfolding create finish_stop reset send_transaction take_batch wake send_next publish_transaction
    has_sendable_active_frame
resting = next (next submitting sending_one) (sends sink 7 1 none_left refl (omega arith) refl)

rest_works : has_failed at_rest.transport ≡ false
unfolding create finish_stop reset send_transaction take_batch wake send_next publish_transaction
    has_sendable_active_frame
rest_works = refl

rest_drained : drained at_rest.transport ≡ true
unfolding create finish_stop reset send_transaction take_batch wake send_next publish_transaction
    has_sendable_active_frame
rest_drained = refl

rest_sent : at_rest.transport.sent ≡ transaction stop_frame ∷ []
unfolding create finish_stop reset send_transaction take_batch wake send_next publish_transaction
    has_sendable_active_frame
rest_sent = refl

drained_sound_example : (view at_rest).outstanding ≡ []
drained_sound_example = drained_sound 1 at_rest resting rest_works rest_drained

-- A motion frame is queued again after `disable_active_commands` and an enabling.
abbrev disabled : System
disabled = record started { transport = disable_active_commands started.transport }

abbrev reopened : System
reopened = record disabled { transport = open_active_commands disabled.transport }

abbrev command : MotorFrame
command = record { motor_index = 0; frame = stop_frame }

abbrev commanded : System
commanded = record reopened {
  transport = queue_motion_frames_locked 1 (command ∷ []) 9 reopened.transport;
}

abbrev woken : System
woken = after (wake commanded.transport)

abbrev one_motion : Batch
one_motion = record {
  transactions = [];
  recovery_frames = [];
  motion_frames = record { frame = stop_frame; motor_index = 0; generation = 1 } ∷ [];
}

abbrev moved : System
moved = after (send_next sink 10 one_motion 0 woken.transport)

moving : Reach disabled moved
unfolding create finish_stop reset disable_active_commands open_active_commands
    queue_motion_frames_locked take_batch wake has_sendable_active_frame
moving =
    next
      (next (next (next here (opens refl)) (queues 1 9 (command ∷ []) refl)) (wakes refl refl refl))
      (sends sink 10 0 one_motion refl (omega arith) refl)

has_room : HasRoom started.transport
unfolding create finish_stop reset
has_room = omega arith

disable_active_commands_final_example :
    (new : List Sent) × (moved.transport.sent ≡ new ++ started.transport.sent)
    × All (IsSince (started.transport.active_generation + 1)) new
disable_active_commands_final_example = disable_active_commands_final started moved has_room moving

health_persistent_iff_example : ((health 100 20 started.transport).persistent ≡ false) ↔ (
    IsWorking started.transport
    × ((started.transport.bridge_available ≡ false)
        → ¬ IsOlder 100 20 started.transport.bridge_unavailable_since_ns)
    × ((started.transport.bridge_available ≡ true)
        → (started.transport.active_commands_enabled ≡ true)
        → ¬ IsOlder 100 20 started.transport.active_work_progress_ns))
health_persistent_iff_example = health_persistent_iff 100 20 started.transport (omega arith)

-- A motion frame in the worker's hands.
abbrev enabled_system : System
enabled_system = record started { transport = open_active_commands started.transport }

abbrev asked : System
asked = record enabled_system {
  transport = queue_motion_frames_locked 0 (command ∷ []) 9 enabled_system.transport;
}

abbrev taken : System
taken = after (wake asked.transport)

taking : Reach (created 1) taken
unfolding create finish_stop reset open_active_commands queue_motion_frames_locked
    has_sendable_active_frame
taking =
    next (next (next starting (opens refl)) (queues 0 9 (command ∷ []) refl)) (wakes refl refl refl)

Reach-IsOrdered_example :
    IsSlotted 1 taken.transport × IsOrdered (length taken.transport.recovery_active) taken.worker
Reach-IsOrdered_example = Reach-IsOrdered 1 taken taking

queue_motion_frames_last_example :
    get_elem?
      (queue_motion_frames
        (command ∷ command ∷ [])
        9
        enabled_system.transport).pending_motion_frames
      0
    ≡ some (some (record { frame = stop_frame; motor_index = 0; generation = 0 }))
unfolding create finish_stop reset open_active_commands
queue_motion_frames_last_example =
    queue_motion_frames_last (command ∷ []) [] command 9 enabled_system.transport refl refl
      (omega arith) tt

-- A stop while a transaction waits.
abbrev halted : Transport
halted = halt submitted.transport

work-ends_example :
    let (u, x) = work sink (7 ∷ 8 ∷ 9 ∷ 10 ∷ 11 ∷ []) halted waiting in
    (x ≡ exited) × (u.pending_transactions ≡ []) × (u.sent ≡ transaction stop_frame ∷ [])
unfolding halt create finish_stop reset send_transaction endpoint_available
work-ends_example =
    work-ends sink (7 ∷ 8 ∷ 9 ∷ 10 ∷ 11 ∷ []) halted waiting (refl, refl, refl, refl) (refl, refl)
      tt (omega arith)
