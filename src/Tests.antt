-- ===== src/Tests.antt =====
-- Test data, runs on small inputs, and each theorem at an input that meets its hypotheses.
mod Records
mod Packets
mod Path
mod Lanes
mod Carriers
mod Envelopes
mod Datagrams
mod Slots
mod Memory
mod Routes
mod Frames
