-- ===== src/Lib.antt =====
-- The native dataplane of the flow router: a C program on DPDK that receives packets on one port,
-- parses them, looks up a rule, applies its action, and sends them on another port, while a control
-- path publishes new rules to running workers.
--
-- The parts, with the files that model them (paths from the repository's root):
--   Packet    dataplane/native/dp_packet.h. A frame is the list of the bytes of the first segment;
--             a read or write outside of it is a fault (`none`). Packet.Access and Packet.Writes
--             hold lemmas on the accesses.
--   Parser    dataplane/native/dp_parser.c: parse_frame is dp_parse_packet behind its null checks
--             (parse_packet), with parse_ipv4, parse_tcp and parse_udp. Parser.Frame says of the
--             bytes what an acceptable frame is; Parser.Layers and Parser.Accept compare the two.
--   Rules     the rule structures of dataplane/native/dp_api.h, and the validation in
--             dataplane/native/dp_lookup.c. Rules.Mask is on dp_validate_action and the mask test.
--   Binding   dataplane/native/dp_binding.c: the arrays that the Go caller allocates and fills.
--             Binding.Arrays is on the filling.
--   GoRules   control/dataplane/rules.go: the rules as the Go control keeps them, validateRules, what
--             is passed to the native side, and the operations on a running control
--             (GoRules.Runtime). GoRules.Agreed and Accepted compare validateRules with the native
--             build; GoRules.Deleted and Kept are on the operations.
--   Tables    what dp_lookup.c relies on of rte_hash and rte_lpm, as a record of operations
--             (TableApi) and one of laws (TableLaws); Tables.Assoc is an instance.
--   Snapshot  dataplane/native/dp_lookup.c: snapshot_build (Snapshot.Build, its loops in
--             Snapshot.Loops) and snapshot_free (Snapshot.Types). Snapshot.Flows, Routes, Serving
--             and Success follow what the tables hold, Snapshot.Taken which entries they take;
--             Snapshot.Valid, Unique and Admitted which rules pass; Snapshot.Accepts, Proceeds and Accepted which rules are enough for a build to
--             succeed; Snapshot.Ledgers what is allocated.
--   Lookup    dp_lookup_packet of dp_lookup.c, and the reference on the configured rules
--             (Lookup.Reference). Lookup.Refine and Configured compare the two; Lookup.Chosen is on
--             the actions that the reference finds. Lookup.Order follows the reference through
--             permutations of the rules, and Lookup.RuleSet is the quotient that forgets their order.
--   Action    dp_apply_action of dataplane/native/dp_action.c. Action.Bounds follows the length of the
--             segment through the writes; Action.Total is on the frames that the parser accepts.
--             Action.Effects, Rewrites, Protocols and Kept follow the bytes through a rewrite, and
--             Action.Reparse is on the parser behind it.
--   Tx        dataplane/native/dp_tx.c: dp_complete_tx, on which Tx.Complete is, and the ownership
--             test (Tx.Partial, Tx.Tested), with the mempool library as a record of operations and
--             one of laws; Tx.Listed is an instance.
--   Worker    dataplane/native/dp_worker.c. dp_process_packet (Worker) calls the parser, the lookup
--             and the action in turn: Worker.Balance is on the counters, Worker.Ownership on the
--             packet, Worker.Total on the processing with a built snapshot, Worker.Routed on what the
--             rules make of a packet. Worker.Burst holds the packet loop of dp_worker_run, Worker.Poll
--             a round of its outer loop, Worker.Run the rest of dp_worker_run and dp_dataplane_run.
--             Worker.Settled and Rounds are on a round, Worker.Step on a turn of a worker,
--             Worker.Threads, Turned, Advance and Reached on an invariant of the threads, Worker.Over and
--             Ended on the end of a run; Worker.Stop holds the request to stop.
--   State     struct dp_state of dataplane/native/dp_internal.h, passed along explicitly.
--   Control   dp_configure_rules, dp_publish_rules and dp_rules_teardown of dp_lookup.c, each as one
--             step; Control.Readers holds the registration of a worker at the QSBR variable.
--             Control.Lifetime is on the rule memory, Control.Switch on the lookups after a publication,
--             Control.Reordered on the order of the rules.
--   Rcu       dp_publish_rules beside the workers, step by step, as a relation on a shared state:
--             Rcu.Qsbr is what it relies on of rte_rcu_qsbr, Rcu.Simple an instance, Rcu.Safety,
--             Rcu.Leaks, Rcu.Progress and Rcu.Waiting hold the theorems.
--   Live      the rounds of the workers, as Worker.Poll has them, beside the publications of Rcu, on
--             snapshots that Snapshot.Build makes: a step relation on the shared state and on what
--             each worker counts, receives, sends and frees. Live.Invariant and Rounds follow an
--             invariant through the steps, Live.Safety is on the running dataplane as a whole, and
--             Live.Leaving and Ending on its end.
--   Port      dataplane/native/dp_port.c: the workers' setup (Port.Workers), the ports' setup
--             (Port.Setup) and the teardown (Port.Teardown). Port.Assigned, Lifecycle, Released,
--             Shutdown and Requested hold the theorems.
--   Runtime   dataplane/native/dp_runtime.c: init, info, statistics and cleanup (Runtime.Totals,
--             Runtime.Cleanup), the guard of the cleanup (Runtime.Guard), and the test of the layout
--             and the sum of the statistics (Runtime.Layout).
--   Prelude   what the parts share. Examples holds the theorems at concrete inputs.
--
-- How they interact. The Go control validates rules, and the binding fills rule arrays; Control builds a snapshot from them and makes it
-- the active one. Port.Setup prepares workers and ports, Worker.Run launches the workers; each round
-- loads the active snapshot, processes a burst with it and reports to the QSBR variable, for which a
-- publication waits before it frees the old snapshot. Port.Teardown releases ports, pool and rules,
-- and Runtime ends the EAL.
--
-- Conventions. Numbers are natural; a w-bit integer wraps where the code's does, written `% 2 ^ w`.
-- An error code is an integer, `minus einval` for -EINVAL. A pointer that may be NULL is an Option
-- where its target is read and a Bool where it is only compared. The action that a lookup points at
-- is its slot in the action array. Loops are recursion on the list that they run over or on the
-- number of their rounds, so that no fuel is needed; the outer loop of a worker, which runs until it
-- reads `stop`, is a step relation (Turns in Worker.Run): a turn is one round, or the way out. What is allocated is counted in
-- a ledger: snapshots, action arrays, flow tables and route tables.
--
-- What is a parameter: rte_hash, rte_lpm, rte_rcu_qsbr and rte_mempool with their laws, the checksum
-- helpers of rte_ip4.h, whether an allocation succeeds and with which rte_errno, the answers of the
-- EAL, of the ethdev calls and of the lcore calls, RTE_MAX_LCORE, RTE_CACHE_LINE_SIZE and where an
-- array stands, the packets that are received and how many the driver takes, and what an
-- uninitialised `meta` holds. The tables are created with the sizes of the code, 2048 entries,
-- 1024 rules and 256 tbl8 groups; how many entries they take is theirs: any insertion may fail with
-- any code, and where a result depends on it, it names the entries that have to be taken.
--
-- What is not modelled: the string of the version; the functions of dp_binding.c that only call
-- `free`; the setters of dp_test.h that choose a failure to inject, which is an argument of the runs
-- here; the native test files; and of the Go code all but the rules: reading JSON, the owner thread,
-- the signals and the command. Simplifications: in Rcu and Live the steps on the shared state are
-- sequentially consistent, the generation does not wrap, and a round's work on its burst is one step
-- behind the load of its snapshot; Live has neither the `stop` flag nor failing workers. Those are in
-- Worker.Run, where a turn of a thread is one step, the launch of a worker with the store to its
-- `launched` included, and each round comes with the snapshot that it loads. An operation of the Go control is one step, and its native publication a
-- parameter.
pub mod Prelude
pub mod Packet
pub mod Parser
pub mod Rules
pub mod Tables
pub mod Snapshot
pub mod Lookup
pub mod Action
pub mod Stats
pub mod Tx
pub mod Worker
pub mod State
pub mod Control
pub mod Runtime
pub mod Rcu
pub mod Live
pub mod Port
pub mod Binding
pub mod GoRules
pub mod Examples
