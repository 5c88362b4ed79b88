-- ===== src/Payment.antt =====
-- core/payment: statuses of a payment, what a provider reports, merchant channels and the service.
pub mod Status
pub mod Types
pub mod Requests
pub mod Event
pub mod Error
pub mod Channels
pub mod Adapter
pub mod Guards
pub mod Pricing
pub mod Service
pub mod Settlement
