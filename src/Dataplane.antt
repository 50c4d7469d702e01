-- ===== src/Dataplane.antt =====
-- pkg/dataplane: the pinned maps and the two data planes that fill them.
pub mod Maps
pub mod Loader
pub mod Iptables
pub mod Interface
pub mod Programs
