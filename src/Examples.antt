-- ===== src/Examples.antt =====
-- Runs of the model at concrete inputs, and the conditions of the theorems at such inputs.
mod Streams
mod Packets
mod Touchpads
mod Keyboards
