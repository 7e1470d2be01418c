-- ===== src/Tree.antt =====
-- tree.rs: a log, the player of its open batches and the index over it.
pub mod CommitToIndex
pub mod Commits
pub mod CommitOps
pub mod Reachable
pub mod NoError
pub mod Snapshots
pub mod Lists
pub mod Ops
pub mod Addresses
pub mod Closing
pub mod Reads
pub mod Replay
pub mod Visible
pub mod ReadBack
pub mod Recovery
