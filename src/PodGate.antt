-- ===== src/PodGate.antt =====
-- `PodGateReconciler` of internal/controller/pod_gate_controller.go: it takes the gate off a pod once
-- Aqua knows all its images. Spans and log lines are left out.
pub mod Config
pub mod Resolution
pub mod Checking
pub mod Reconcile
pub mod Clearance
pub mod Digests
pub mod Quiet
pub mod History
pub mod Wakeups
pub mod Waking
pub mod OwnScans
pub mod Setup
pub mod Release
