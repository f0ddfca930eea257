-- ===== src/Tests.antt =====
-- Concrete inputs on which the theorems apply: a small cluster, and one run of each kind on it.
pub mod Samples
pub mod Hub
mod Granted
mod Stored
mod Requests
mod Rounds
mod Reviews
mod Endpoints
mod Lives
mod Policies
mod Names
mod Lookups
mod Webhooks
mod Updates
mod Clusters
mod Admissions
mod Listings
