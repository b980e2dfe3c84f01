-- ===== src/Domain.antt =====
-- internal/domain: the models and the rules, which import nothing of the program.
pub mod Errors
pub mod Optional
pub mod Role
pub mod Task
pub mod Patch
pub mod Rules
pub mod Team
pub mod User
pub mod Comment
pub mod Stats
