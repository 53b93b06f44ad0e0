-- ===== src/System.antt =====
-- robstride_ros2_control/src/robstride_system.cpp and internal/robstride_ros2_control/
-- interface_value_bindings.hpp: the plugin of ros2_control, built with managed interfaces, and in
-- `Direct` without them.
-- `Bindings` is the transfer of values, `State` the members, `Lifecycle` the callbacks of the life
-- cycle, `Cycle` the control cycle, `Switch` the switch of command modes, and `Run` all of these in
-- any order.
pub mod Bindings
pub mod State
pub mod Lifecycle
pub mod Cycle
pub mod Switch
pub mod Direct
pub mod Run
pub mod Consume
pub mod Initialisation
pub mod Activation
pub mod Prepared
pub mod Published
pub mod Handles
pub mod Synced
pub mod StateHandles
pub mod Seen
pub mod Tests
