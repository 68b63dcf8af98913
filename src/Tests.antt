-- ===== src/Tests.antt =====
-- Runs of the model at small inputs, and the theorems at inputs that meet their hypotheses.
mod Samples
mod Tables
mod Frames
mod Tracking
mod Departing
mod Changes
mod Fetching
mod Racing
mod Streams
mod Copying
mod Watching
mod Nodes
mod Wires
mod Blocking
mod Syncing
mod Starting
