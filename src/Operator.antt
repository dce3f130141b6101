-- ===== src/Operator.antt =====
-- go-operator/internal/controller (Go): the controller that scales a Deployment by the KV-cache usage
-- that its workload reports.
pub mod Int32
pub mod Types
pub mod Scaling
pub mod Status
pub mod Reconcile
pub mod Strings
pub mod Metrics
