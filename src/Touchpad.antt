-- ===== src/Touchpad.antt =====
-- VoodooPS2Trackpad: the parts that the touchpad drivers share.
pub mod Averages
pub mod MiddleButton
pub mod Momentum
pub mod Messages
