-- ===== src/Controller.antt =====
-- VoodooPS2Controller/VoodooPS2Controller.cpp: `ApplePS2Controller`, as far as it carries out the
-- requests of the drivers.
pub mod Ports
pub mod Request
