-- ===== src/Tests.antt =====
-- The theorems applied to concrete inputs, and small runs of the code.
mod Runtime
mod Risk
mod Cache
mod Payment
mod Service
mod RateLimit
mod Tasks
mod Realtime
mod Pricing
mod Lifecycle
