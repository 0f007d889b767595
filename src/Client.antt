-- ===== src/Client.antt =====
-- pkg/client: the shared informers, the listers and the typed client of local volumes, and the packages
-- that put them into a context.
pub mod Factory
pub mod Packages
pub mod Agents
pub mod Clientset
pub mod Generic
pub mod Typed
pub mod Lister
pub mod Scheduling
