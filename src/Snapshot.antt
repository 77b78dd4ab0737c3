-- ===== src/Snapshot.antt =====
-- The rule snapshot of dataplane/native/dp_lookup.{h,c}: `dp_snapshot_build`, `dp_snapshot_free`.
-- A pointer into the action array is the index of the slot. What the builder allocates is counted in
-- a ledger. Whether an allocation succeeds is an argument: `granted`, or refused with `rte_errno`.
pub mod Types
pub mod Loops
pub mod Taken
pub mod Build
pub mod Flows
pub mod Routes
pub mod Ledgers
pub mod Valid
pub mod Unique
pub mod Serving
pub mod Success
pub mod Admitted
pub mod Accepts
pub mod Accepted
pub mod Proceeds
