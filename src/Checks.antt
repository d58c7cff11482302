-- ===== src/Checks.antt =====
-- The theorems at concrete inputs.
mod Stages
mod Board
mod Legality
mod Events
mod Queue
mod Controller
mod Retry
mod Merge
mod Status
mod Validation
mod Sampling
mod Arbitration
