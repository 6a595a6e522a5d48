-- ===== src/PortLease.antt =====
-- lib/port-lease.py: the leases on a development bench's TCP ports.
pub mod Claims
pub mod Walk
pub mod Hold
pub mod Runtime
mod Tests
