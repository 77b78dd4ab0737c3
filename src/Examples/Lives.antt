-- ===== src/Examples/Lives.antt =====
-- Worker 0 receives two packets on generation 1, while generation 2 is built and made active.
use dpdk_high_speed_flow_rou.Prelude.{
  ℕ, ◌+◌, ◌≡◌, ◌↔◌, ◌/◌, [], ◌∷◌, refl, false, true, some, arith,
}
use dpdk_high_speed_flow_rou.Parser.{zero_meta}
use dpdk_high_speed_flow_rou.Snapshot.Types.{Snapshot}
use dpdk_high_speed_flow_rou.Tables.Assoc.{assoc_api, assoc-TableLaws}
use dpdk_high_speed_flow_rou.Worker.{Processed, process_packet}
use dpdk_high_speed_flow_rou.Worker.Balance.{IsBalanced}
use dpdk_high_speed_flow_rou.Worker.Settled.{occurrences}
use dpdk_high_speed_flow_rou.Worker.Routed.{Routed}
use dpdk_high_speed_flow_rou.Rcu
use dpdk_high_speed_flow_rou.Rcu.{System, holding, idle, off, free, built, update}
use dpdk_high_speed_flow_rou.Rcu.Qsbr.{QsbrApi}
use dpdk_high_speed_flow_rou.Rcu.Simple.{simple_api, simple-QsbrLaws}
use dpdk_high_speed_flow_rou.Live.{
  IsGiven, Running, BuiltFrom, deref, Runs, still, more, build_rules, go_on, register, load, round,
  started, finish_round,
}
use dpdk_high_speed_flow_rou.Live.Safety.{no_fault, held-Routed}
use dpdk_high_speed_flow_rou.Live.Ending.{can_end}
use dpdk_high_speed_flow_rou.Examples.Data.{
  flow, route, world, all_granted, built as first_rules, snapshot_build-built, rebuilt,
  snapshot_build-rebuilt, arrays, packet, packet-IsMbuf, zero_sums, received, one_waiting,
}

abbrev four : QsbrApi
four = simple_api 4

arrays-IsGiven : IsGiven arrays
arrays-IsGiven = record { flows = omega arith; routes = omega arith; words = (omega arith, tt) }

first_rules-BuiltFrom : BuiltFrom assoc_api four arrays 1 first_rules
first_rules-BuiltFrom = (all_granted, world, arrays-IsGiven, snapshot_build-built)

abbrev begin : Running assoc_api four
begin = started assoc_api four 4 first_rules arrays

abbrev registered : Running assoc_api four
registered = record begin {
  rcu = record begin.rcu {
    qsbr = four.register 0 begin.rcu.qsbr;
    reader = update begin.rcu.reader 0 idle;
  };
}

abbrev loaded : Running assoc_api four
loaded = record registered {
  rcu = record registered.rcu { reader = update registered.rcu.reader 0 (holding 1) };
}

abbrev prepared : Running assoc_api four
prepared = record loaded {
  rcu = record loaded.rcu { live = update loaded.rcu.live 2 true; writer = built 2 };
  store = update loaded.store 2 (some rebuilt);
  rules = update loaded.rules 2 arrays;
}

abbrev swapped : Running assoc_api four
swapped = record prepared {
  rcu = record prepared.rcu { active = 2; generation = 2; writer = Rcu.exchanged 1 };
}

abbrev Run : Running assoc_api four → Type 0
Run = Runs assoc_api four zero_sums zero_meta 4 begin

swapped-Run : Run swapped
swapped-Run =
    more
      (more
        (more (more still (register 0 (omega arith) (omega arith) refl refl)) (load 0 refl refl))
        (build_rules all_granted arrays world rebuilt _ arrays-IsGiven refl snapshot_build-rebuilt
          (Rcu.build refl refl) refl))
      (go_on _ (λ e. cc) (Rcu.exchange 2 refl refl) refl)

abbrev half : ℕ → ℕ
half n = n / 2

abbrev finished : Running assoc_api four
finished = finish_round assoc_api four zero_sums zero_meta swapped 0 1 received half

finished-Run : Run finished
finished-Run = more swapped-Run (
    round 0 1 received half refl
      (record { held = refl; short = omega arith; octets = omega arith }, (packet-IsMbuf, tt))
      (λ n. omega arith) refl)

no_fault_example :
    (finished.fault ≡ false)
    × ((i : ℕ) → IsBalanced 0 0 (finished.stats i))
    × ((i a : ℕ)
        → occurrences a (finished.accepted i) + occurrences a (finished.freed i)
          ≡ occurrences a (finished.received i))
no_fault_example =
    no_fault (simple-QsbrLaws 4) 4 zero_sums assoc-TableLaws zero_meta first_rules arrays
      first_rules-BuiltFrom finished-Run

held-Routed_example :
    (x : Snapshot assoc_api) × (p : Processed) × (deref assoc_api four swapped 1 ≡ some x)
    × (process_packet zero_sums assoc_api (some x) zero_meta packet one_waiting ≡ some p)
    × Routed (flow ∷ []) (route ∷ []) packet p.out
held-Routed_example =
    held-Routed (simple-QsbrLaws 4) 4 zero_sums assoc-TableLaws zero_meta first_rules arrays
      first_rules-BuiltFrom swapped-Run 0 1 refl packet one_waiting packet-IsMbuf

-- Worker 0 is in its round, and the writer has not yet asked for a grace period.
can_end_example :
    (u : Running assoc_api four) × Runs assoc_api four zero_sums zero_meta 4 swapped u
    × (u.fault ≡ false)
    × ((i : ℕ) → u.rcu.reader i ≡ off)
    × (u.rcu.writer ≡ free)
    × ((g : ℕ) → (u.rcu.live g ≡ true) ↔ (g ≡ u.rcu.active))
can_end_example =
    can_end (simple-QsbrLaws 4) 4 zero_sums assoc-TableLaws zero_meta first_rules arrays
      first_rules-BuiltFrom swapped-Run
