-- ===== src/Tests.antt =====
-- The theorems at concrete inputs.
mod Encoding
mod Indexes
mod Batches
mod Trees
mod Replays
mod Databases
mod Commits
mod Compactions
mod Scripts
mod Frames
mod Inits
mod Recoveries
mod Threads
