-- ===== src/Realtime.antt =====
-- core/realtime and pkg/realtime/memory: identities, and the clients, users and rooms of a process.
pub mod Identity
pub mod Index
pub mod Registry
