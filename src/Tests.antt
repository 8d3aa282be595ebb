-- ===== src/Tests.antt =====
-- The theorems at concrete inputs.
mod Heap
mod Frames
mod AddressSpace
mod Tables
mod Devices
mod Bytes
mod Console
mod Queue
mod Threads
mod Firmware
