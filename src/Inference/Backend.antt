-- ===== src/Inference/Backend.antt =====
-- inference/backend.py: the store of requests, fenced attempts and their costs.
pub mod Admit
pub mod Claim
pub mod Finish
pub mod Marks
pub mod Numbers
pub mod Outcomes
pub mod Calls
pub mod Lasting
pub mod Fences
pub mod Completion
pub mod Costs
pub mod Quiet
pub mod Ledger
pub mod Budget
mod Tests
