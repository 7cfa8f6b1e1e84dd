-- ===== src/VzClient.antt =====
-- pkg/client/vz.go: the client of the provider, which joins the client of the virtual machines and
-- the optional client of the containers into groups, one for each pod.
pub mod Groups
pub mod Deletions
pub mod Creations
pub mod Routing
mod Examples
