-- ===== src/Driver.antt =====
-- pkg/driver: the CSI driver. Driver/Node is nodeserver.go, Driver/Filesystem is utils.go,
-- Driver/Services is controllerserver.go and identityserver.go, and Driver/Start is driver.go.
pub mod Filesystem
pub mod Node
pub mod Services
pub mod Start
pub mod Routine
pub mod Formatting
pub mod Volumes
pub mod Publishing
pub mod Tagging
pub mod Topology
pub mod Devices
