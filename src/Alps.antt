-- ===== src/Alps.antt =====
-- VoodooPS2Trackpad/alps.cpp, the driver of the ALPS touchpads, a module for each part.
pub mod Types
pub mod Decode
pub mod Bitmap
pub mod Process
pub mod Framing
pub mod Command
pub mod Identify
pub mod HwInit
pub mod Setup
pub mod Dispatch
