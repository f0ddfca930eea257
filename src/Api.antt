-- ===== src/Api.antt =====
-- The custom resources of api/v1alpha1 as records.
pub mod Session
pub mod Escalation
pub mod Policy
pub mod Cluster
