-- ===== src/Driver.antt =====
-- robstride_driver/include/robstride_driver/driver.hpp, config.hpp and
-- robstride_driver/src/driver.cpp: the driver over the joints and the transport. `State` is the
-- data, `Initialize` the checks of a configuration, `Receive` the receive callback, `Modes` the
-- switch of command modes, `Commands` the write of a control cycle and `Update` its read, `Start`
-- the start and the stop of the motors, `Connection` the life of the transport, `Measure` what is
-- reported, and `Skeleton` what all of these leave as it was configured.
pub mod State
pub mod Initialize
pub mod Receive
pub mod Modes
pub mod Commands
pub mod Update
pub mod Start
pub mod Connection
pub mod Measure
pub mod Skeleton
pub mod Tests
