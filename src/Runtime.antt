-- ===== src/Runtime.antt =====
-- The runtime: the processor of desired states, the subscriber that feeds it, and the delivery pump.
pub mod Processor
pub mod Subscriber
pub mod Delivery
