-- ===== src/Authorization.antt =====
-- packages/authorization/src: which actor may do what to which resource, decided inside a tenant
-- transaction.
pub mod Terms
pub mod Tables
pub mod Spaces
pub mod Resources
pub mod Actors
pub mod Mutations
pub mod TruthDecision
pub mod ResourceDecision
pub mod Service
pub mod Examples
