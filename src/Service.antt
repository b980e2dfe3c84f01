-- ===== src/Service.antt =====
-- internal/service: the use cases, over the interfaces of service.go.
pub mod Exec
pub mod Interfaces
pub mod Members
pub mod Auth
pub mod Teams
pub mod Tasks
