-- ===== src/Keyboard.antt =====
-- VoodooPS2Keyboard: the keyboard driver, from the bytes of the device to key events.
pub mod Packets
pub mod Types
pub mod Interrupt
pub mod Levels
pub mod Special
pub mod Dispatch
pub mod Macros
pub mod Delivery
pub mod Lifecycle
pub mod Parse
pub mod Load
pub mod Stock
