-- ===== src/Failover.antt =====
-- communication/failover.py: one module for each of its classes.
pub mod Breaker
pub mod Batch
pub mod Pool
pub mod Retry
pub mod Manager
pub mod Compressor
