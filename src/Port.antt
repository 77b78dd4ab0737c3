-- ===== src/Port.antt =====
-- dataplane/native/dp_port.c: the assignment of lcores and queues to workers, the setup of the two
-- ports, and the teardown. What DPDK answers is an argument of the function that asks.
pub mod Workers
pub mod Setup
pub mod Teardown
pub mod Assigned
pub mod Quiet
pub mod Lifecycle
pub mod Released
pub mod Shutdown
pub mod Requested
