-- ===== src/Core.antt =====
-- src/core: the names and the expressions that all later phases share.
pub mod Symbol
pub mod Resolver
pub mod CLibrary
pub mod Expr
pub mod Types
