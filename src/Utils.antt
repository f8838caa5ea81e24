-- ===== src/Utils.antt =====
-- pkg/utils: helpers of the SDK.
pub mod Breaker
pub mod Errors
pub mod Retry
pub mod Health
