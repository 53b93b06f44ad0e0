-- ===== src/Transport/Publish.antt =====
-- robstride_driver/src/can_transport.cpp: `publish_unlocked`, `publish_transaction`,
-- `publish_active`. The endpoint probe, the sink and the ROS publisher are not part of the program:
-- what they answer to a call is the argument `Endpoint`.
use robstride_ros.Prelude.{
  ℕ, Bool, true, false, not, ◌&&◌, ◌||◌, ◌∷◌, if◌then◌else◌, ◌==◌, get_or, bump_u64,
}
use robstride_ros.Protocol.{Frame}
use robstride_ros.Transport.State.{
  ActiveFrame, Sent, transaction, recovery, motion, Transport, has_failed, update_endpoint_status,
}

pub record Endpoint : Type 0 where
  -- Whether `endpoint_probe_`, `frame_sink_` and `publisher_` are set.
  pub has_probe : Bool
  pub has_sink : Bool
  pub has_publisher : Bool
  -- What the probe returns, and whether the publisher has a subscription.
  pub probe_says : Bool
  pub has_subscription : Bool
  -- Whether the probe, and the sink or the publisher, throw an exception.
  pub probe_throws : Bool
  pub publish_throws : Bool

-- `publish_unlocked` returns false, returns true or throws.
pub data Outcome : Type 0 where
  withheld published thrown : Outcome

unfoldable pub endpoint_available : Endpoint → Bool
endpoint_available e =
    if e.has_probe
    then e.probe_says
    else if not e.has_sink
    then e.has_publisher && e.has_subscription
    else true

-- The frame is given with its queue, for the log.
unfoldable pub publish_unlocked : Endpoint → ℕ → Sent → Transport → Transport × Outcome
unfolding endpoint_available update_endpoint_status
publish_unlocked e now source t =
    if e.has_probe && e.probe_throws
    then (t, thrown)
    else let u = update_endpoint_status (endpoint_available e) now t in
      if not (endpoint_available e) || (not e.has_sink && not e.has_publisher)
      then (u, withheld)
      else if e.publish_throws
      then (u, thrown)
      else (record u { sent = source ∷ u.sent }, published)

abbrev count_transaction : Transport × Outcome → Transport × Outcome
count_transaction (t, published) = (
  record t { transaction_frames_transmitted = bump_u64 t.transaction_frames_transmitted },
  published,
)
count_transaction (t, withheld) = (t, withheld)
count_transaction (t, thrown) = (t, thrown)

unfoldable pub publish_transaction : Endpoint → ℕ → Frame → Transport → Transport × Outcome
unfolding publish_unlocked
publish_transaction e now frame t =
    if has_failed t
    then (t, withheld)
    else count_transaction (publish_unlocked e now (transaction frame) t)

abbrev count_active : Bool → Transport × Outcome → Transport × Outcome
count_active true (t, published) =
    (record t { recovery_frames_transmitted = bump_u64 t.recovery_frames_transmitted }, published)
count_active false (t, published) =
    (record t { motion_frames_transmitted = bump_u64 t.motion_frames_transmitted }, published)
count_active is_recovery (t, withheld) = (t, withheld)
count_active is_recovery (t, thrown) = (t, thrown)

abbrev pub sent_as : Bool → ActiveFrame → Sent
sent_as true frame = recovery frame
sent_as false frame = motion frame

-- The guards before publication.
abbrev pub may_publish : ActiveFrame → Bool → Transport → Bool
may_publish frame is_recovery t =
    not (
      not t.running
      || has_failed t
      || not t.active_commands_enabled
      || not (frame.generation == t.active_generation))
    && (let recovering = get_or t.recovery_active frame.motor_index false in
        not ((is_recovery && not recovering) || (not is_recovery && recovering)))

unfoldable pub publish_active : Endpoint → ℕ → ActiveFrame → Bool → Transport → Transport × Outcome
unfolding publish_unlocked
publish_active e now frame is_recovery t =
    if may_publish frame is_recovery t
    then count_active is_recovery (publish_unlocked e now (sent_as is_recovery frame) t)
    else (t, withheld)
