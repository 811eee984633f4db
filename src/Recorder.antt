-- ===== src/Recorder.antt =====
-- code/backend/recorder.py: which recording jobs are allowed and due, how a run of one ends, and what is
-- pruned. The table `record_jobs` is a list of jobs in the order of their ids. A symbol is a list of
-- characters, and a time is a number of seconds. The collectors of the data are a parameter.
mod Jobs
mod Runs
mod Prune
mod Chains
pub mod Due
pub mod Ids
pub mod Passed
pub mod Kept
pub mod Had
pub mod Settled
mod Tests
unfoldable pub use Jobs.*
unfoldable pub use Runs.*
unfoldable pub use Prune.*
unfoldable pub use Chains.*
