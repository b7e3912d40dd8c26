-- ===== src/Inference.antt =====
-- inference/: the calls of models, and what guards them.
pub mod Records
pub mod Backend
pub mod Circuits
pub mod Pricing
pub mod Routing
pub mod Reply
pub mod Broker
