-- ===== src/Tests.antt =====
-- Inputs that the tests of several components share, and the tests beside it.
mod Data
mod Store
mod Queue
mod Detection
mod Texts
mod Export
mod Network
mod Processes
mod Tree
mod Views
mod Telemetry
mod Etw
mod Dialog
