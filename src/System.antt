-- ===== src/System.antt =====
-- The two controllers on one cluster: what each leaves alone, every interleaving of their reconciles, and
-- what that says of a pod that leaves the gate.
pub mod Calls
pub mod Steps
pub mod Admission
