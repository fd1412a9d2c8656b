-- ===== src/Machines.antt =====
-- pkg/openshift/machines.go: what the MachineManager works on. Types holds the objects and the clients,
-- Json the provider specs, and the other children the manager's methods and the theorems on them.
pub mod Json
pub mod Types
pub mod Provider
pub mod Sets
pub mod Readiness
pub mod ControlPlane
pub mod Targets
pub mod Counting
pub mod Deletion
