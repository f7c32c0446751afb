-- ===== src/Tests.antt =====
-- Runs of the model on small inputs, and the theorems at concrete data.
mod Fixtures
mod Codec
mod Clocks
mod Storage
mod Sync
mod Restoring
mod Mounted
mod Queue
mod Answers
mod Trees
mod Registry
mod Secrets
mod Frames
mod Rotating
mod Keeping
mod Commands
mod Platforms
