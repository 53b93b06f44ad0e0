-- ===== src/Transport.antt =====
-- robstride_driver/include/robstride_driver/can_transport.hpp and
-- robstride_driver/src/can_transport.cpp: the queues between the driver and the CAN bridge, one
-- function for each critical section of the code. `State` is the data, `Publish` the way of a frame
-- to the bus, `Queue` what producers do, `Worker` the transmit thread, `Executor` that of ROS, `Health` what is reported,
-- and `System` the threads together.
pub mod State
pub mod Publish
pub mod Queue
pub mod Worker
pub mod Lifecycle
pub mod Executor
pub mod Health
pub mod Drain
pub mod System
pub mod Tests
