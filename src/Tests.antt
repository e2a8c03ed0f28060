-- ===== src/Tests.antt =====
-- Runs of the modelled functions, and the theorems at concrete inputs.
mod Bitmaps
mod Boots
mod Devices
mod Faults
mod Frames
mod Heaps
mod Pages
mod Processor
mod StringRuns
mod TaskTables
mod ThreadRuns
mod ThreadHeaps
mod SharedRuns
mod Timers
mod Histories
mod Zones
