-- ===== src/Agent.antt =====
-- pkg/agent: the controllers of a node's agent. Agent/Reconciler is agent.go and agent_reconciler.go,
-- Agent/Gc is gc.go and gc_reconciler.go.
pub mod Reconciler
pub mod Gc
pub mod Convergence
pub mod Enqueueing
pub mod Collection
pub mod Releasing
