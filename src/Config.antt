-- ===== src/Config.antt =====
-- robstride_ros2_control/src/driver_config.cpp: the hardware description of ros2_control to a
-- `DriverConfiguration`. An exception is `none`, without its message; a `std::unordered_map` is an
-- association list. `std::stod` is a parameter: from a text, a value and the number of the bytes
-- that it has read, or `none` where it throws.
pub mod Numbers
pub mod Parameters
pub mod Ranges
pub mod Interfaces
pub mod Joints
pub mod Hardware
pub mod Accepted
pub mod Digits
pub mod Tests
