-- ===== src/Lib.antt =====
-- robstride_ros: a verification library for the RobStride motor driver for ROS 2.
--
-- The program drives RobStride motors over CAN. `robstride_driver/` holds the protocol, the data of a
-- joint, the transport (queues between the driver's threads and a CAN bridge over ROS topics) and the
-- driver; `robstride_ros2_control/` makes it a hardware component of ros2_control.
--
-- What models what:
--   * Protocol: robstride_driver/src/protocol.cpp and its header, one function for each function.
--   * Joint: robstride_driver/include/robstride_driver/joint_data.hpp, the structs and the checked
--     transforms; Recovery: `RecoveryState::update` of the same file.
--   * CommandMode: robstride_ros2_control/src/command_mode.cpp.
--   * Transport: robstride_driver/src/can_transport.cpp. Transport.State holds the members of
--     `CanTransport` as a record, Transport.Publish the publication of a frame, Transport.Queue what the
--     driver calls, Transport.Worker the loop of the transmit thread in steps, Transport.Lifecycle
--     `start`, `stop` and the waits, Transport.Health `health` and `metrics`. Transport.System is the
--     step relation of all threads; what holds of it holds for every interleaving of these steps.
--     Transport.Drain is the transmit thread alone, after a stop, and Transport.Executor the thread
--     that spins the ROS executor.
--   * Driver: robstride_driver/src/driver.cpp, on top of Joint and Transport. Driver.Initialize,
--     Driver.Receive, Driver.Modes, Driver.Commands, Driver.Update, Driver.Start and
--     Driver.Connection hold the operations of these names, Driver.Measure `metrics`. A call is one
--     step there, and takes the time as an argument. Driver.Skeleton is what a configuration fixes.
--   * Metrics: robstride_driver/src/metrics.cpp and its header, with the sequence lock of a sample in
--     Metrics.Sequence as runs of single accesses.
--   * Diagnostics: the messages of `publish_diagnostics` and `publish_failure_diagnostic` in
--     robstride_driver/src/can_transport.cpp.
--   * Profile: robstride_driver/src/motor_profile.cpp.
--   * Config: robstride_ros2_control/src/driver_config.cpp, from the hardware description to the
--     configuration that Driver.Initialize takes.
--   * System: robstride_ros2_control/src/robstride_system.cpp and its interface_value_bindings.hpp, the
--     plugin over the driver, the parser and the command modes, as it is built with managed interfaces;
--     System.Direct is the build without them, where the framework holds pointers into the driver's
--     storage. System.Run is the step relation of the plugin's calls and of what happens between them.
--   * Double, Clock and Prelude are what these files share.
--
-- A `double` is a type with the operations of the record `Double`, a parameter throughout: what a proof
-- uses of IEEE 754 arithmetic is named in `Double.Laws.IsIeee`, and `Double.Fixed` is a small
-- instance of decimal numbers that has these laws. Integers are natural numbers; the wrap-around of
-- 64-bit counters is written out, and the theorems on generations ask that the counter does not wrap.
-- Times are nanoseconds of the steady clock, settings are milliseconds. A string is the list of its
-- bytes. No definition needs fuel: every loop goes through a list, counts the attempts or repetitions
-- that a setting allows, or is a step relation.
--
-- Not modelled: ROS, the CAN bridge, the framework and the callbacks handed to the transport, whose
-- answers are arguments (`Endpoint`, `Poll`, the flag of a successful creation, the rounds of the
-- executor, the accesses of interfaces that get their lock); `std::stod`, which is an argument of the
-- parser; how a stream prints a number; log and error messages; and memory orders weaker than
-- sequential consistency, but for the relaxed accesses of the sequence lock, which Metrics.Sequence lets
-- take effect out of order.
pub mod Prelude
pub mod Double
pub mod Protocol
pub mod Clock
pub mod Recovery
pub mod Joint
pub mod CommandMode
pub mod Transport
pub mod Driver
pub mod Profile
pub mod Metrics
pub mod Diagnostics
pub mod Config
pub mod System
