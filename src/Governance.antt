-- ===== src/Governance.antt =====
-- governance/: proposals, reviews, promotion, incidents and model risk.
pub mod Base
pub mod Evidence
pub mod Proposal
pub mod Policy
pub mod Classify
pub mod Lifecycle
pub mod Review
pub mod Incident
pub mod Handling
pub mod Promotion
pub mod ModelRisk
pub mod Simulation
mod Samples
