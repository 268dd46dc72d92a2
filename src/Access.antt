-- ===== src/Access.antt =====
-- internal/access/access.go.
pub mod Syntax
pub mod Scope
pub mod Methods
pub mod Overlap
pub mod Routes
