-- ===== src/Driver/Connection.antt =====
-- robstride_driver/src/driver.cpp: `open` and `close`, of which the first is `open_driver` here.
pub mod Active
pub mod Attached
use robstride_ros.Prelude.{
  ℕ, Bool, true, false, not, ◌||◌, Option, none, some, if◌then◌else◌, ◌==◌, is_empty,
}
use robstride_ros.Double.{Double}
use robstride_ros.Transport.State.{CanTransportOptions, Transport, construct}
use robstride_ros.Transport.Publish.{Endpoint}
use robstride_ros.Transport.Lifecycle as Lifecycle
use robstride_ros.Driver.State.{DriverSettings, Driver}
use robstride_ros.Driver.Initialize.{reset_metrics}

-- The transport is stopped, which always ends, and dropped with all of its state.
unfoldable pub close : {W : Type 0} → Driver W → Driver W
close v = record v { active = false; transport = none }

-- `settings_.transport`.
abbrev pub transport_options : DriverSettings → CanTransportOptions
transport_options s = record {
  node_name = s.node_name;
  transmit_topic = s.transmit_topic;
  receive_topic = s.receive_topic;
  motor_count = s.motor_count;
  receive_qos_depth = s.receive_qos_depth;
}

module _ {W : Type 0} ⦃d : Double W⦄ where
  -- At the times of the two resets of metrics; `created` says whether the ROS entities could be
  -- made, and `joined` is what the threads of the transport do until they have ended.
  unfoldable pub open_driver :
      Endpoint → ℕ → ℕ → Bool → (Transport → Transport) → Driver W → Driver W × Bool
  open_driver e now started_at created joined v =
      let u = reset_metrics now v in
      elim (construct (transport_options v.settings) true) [
        | none ↦ (close u, false)
        | some made ↦
            let (t, started) = Lifecycle.start e started_at created joined made in
            if started
            then (record u { transport = some t }, true)
            else (close (record u { transport = some t }), false)
      ]
