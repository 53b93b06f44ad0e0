-- ===== src/System/Run.antt =====
-- The plugin as it runs: the calls of the framework, what its threads do between them, and what all
-- of them keep.
pub mod Attached
pub mod Kept
pub mod Steps
pub mod Initial
pub mod Sound
pub mod Configured
pub mod Latch
pub mod Tests
use robstride_ros.Prelude.{ℕ, Bool, ◌≡◌, List, Text}
use robstride_ros.Double.{Double}
use robstride_ros.Transport.State.{Transport}
use robstride_ros.Transport.Publish.{Endpoint}
use robstride_ros.Driver.State.{on_transport}
use robstride_ros.Driver.Receive.{Message, receive_frame}
use robstride_ros.Driver.Start.{Waits}
use robstride_ros.System.State.{System}
use robstride_ros.System.Lifecycle.{
  on_export_state_interfaces, on_export_command_interfaces, on_configure, on_cleanup, on_activate,
  on_deactivate, on_shutdown, on_error,
}
use robstride_ros.System.Cycle.{read, write}
use robstride_ros.System.Switch.{perform_command_mode_switch}

module _ {W : Type 0} ⦃d : Double W⦄ where
  -- A call with any outcome, in any order; `prepare_command_mode_switch` changes nothing.
  pub data Step (s u : System W) : Type 0 where
    exports_states : (free : ℕ → Bool) → u ≡ (on_export_state_interfaces free s).0 → Step s u
    exports_commands : (free : ℕ → Bool) → u ≡ (on_export_command_interfaces free s).0 → Step s u
    configures :
        (e : Endpoint) (now started_at : ℕ) (created : Bool) (joined : Transport → Transport)
        → u ≡ (on_configure e now started_at created joined s).0
        → Step s u
    cleans_up : u ≡ (on_cleanup s).0 → Step s u
    activates :
        (w : Waits) (now : ℕ) (states_free commands_free : ℕ → Bool)
        (meanwhile : Transport → Transport)
        → u ≡ (on_activate w now states_free commands_free meanwhile s).0
        → Step s u
    deactivates : (meanwhile : Transport → Transport) → u ≡ (on_deactivate meanwhile s).0 → Step s u
    shuts_down : (meanwhile : Transport → Transport) → u ≡ (on_shutdown meanwhile s).0 → Step s u
    handles_error : (meanwhile : Transport → Transport) → u ≡ (on_error meanwhile s).0 → Step s u
    reads : (now : ℕ) (free : ℕ → Bool) → u ≡ (read now free s).0 → Step s u
    writes : (now : ℕ) (free : ℕ → Bool) → u ≡ (write now free s).0 → Step s u
    switches :
        (now : ℕ) (free : ℕ → Bool) (start stop : List Text)
        → u ≡ (perform_command_mode_switch now free start stop s).0
        → Step s u
    -- A message arrives.
    receives :
        (now : ℕ) (msg : Message)
        → u ≡ record s { driver = receive_frame now msg s.driver }
        → Step s u
    -- The threads of the transport change it in some way.
    transmits :
        (f : Transport → Transport)
        → u
          ≡ record s { driver = record s.driver { transport = on_transport f s.driver.transport } }
        → Step s u
    -- The controllers set new commands.
    asks : (values : Text → W) → u ≡ record s { command_values = values } → Step s u

  pub data Reach (s : System W) : System W → Type 0 where
    here : Reach s s
    next : {t u : System W} → Reach s t → Step t u → Reach s u
