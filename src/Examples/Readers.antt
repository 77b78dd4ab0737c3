-- ===== src/Examples/Readers.antt =====
-- A worker that holds generation 1 while generation 2 is published.
use dpdk_high_speed_flow_rou.Prelude.{ℕ, ◌<◌, Bool, ◌≡◌, ◌⊎◌, refl, true, false, arith}
use dpdk_high_speed_flow_rou.Rcu.Qsbr.{QsbrApi}
use dpdk_high_speed_flow_rou.Rcu.Simple.{simple_api, simple-QsbrLaws}
use dpdk_high_speed_flow_rou.Rcu.{
  idle, holding, free, built, exchanged, waiting, update, System, build, exchange, start, register,
  quiescent, is_off, Publishes, load, writes, reads, Reach, here, next, initial,
}
use dpdk_high_speed_flow_rou.Rcu.Safety.{no_use_after_free}
use dpdk_high_speed_flow_rou.Rcu.Leaks.{InHand, no_leak}
use dpdk_high_speed_flow_rou.Rcu.Waiting.{Walks, stays, walks, wait_ends}

abbrev four : QsbrApi
four = simple_api 4

abbrev begin : System four
begin = initial four 4 four.init

abbrev registered : System four
registered = record begin { qsbr = four.register 0 begin.qsbr; reader = update begin.reader 0 idle }

abbrev loaded : System four
loaded = record registered { reader = update registered.reader 0 (holding 1) }

abbrev prepared : System four
prepared = record loaded { live = update loaded.live 2 true; writer = built 2 }

abbrev swapped : System four
swapped = record prepared { active = 2; generation = 2; writer = exchanged 1 }

abbrev in_wait : System four
in_wait = record swapped { qsbr = (four.start swapped.qsbr).1; writer = waiting 1 0 }

in_wait-Reach : Reach four 4 begin in_wait
in_wait-Reach =
    next
      (next
        (next
          (next (next here (reads (register 0 (omega arith) (omega arith) refl refl)))
            (reads (load 0 refl refl)))
          (writes (build refl refl)))
        (writes (exchange 2 refl refl)))
      (writes (start 1 refl refl))

no_use_after_free_example :
    (in_wait.live 1 ≡ true)
    × (in_wait.live in_wait.active ≡ true)
    × (in_wait.active ≡ in_wait.generation)
no_use_after_free_example = no_use_after_free (simple-QsbrLaws 4) 4 in_wait-Reach 0 1 refl

no_leak_example : (1 ≡ in_wait.active) ⊎ InHand in_wait.writer 1
no_leak_example = no_leak 4 in_wait-Reach 1 refl

-- Worker 0 ends its round, and worker 1 registers meanwhile.
abbrev told_once : ℕ → Bool
told_once = update (λ i. is_off (in_wait.reader i)) 0 true

abbrev joined : System four
joined = record in_wait {
  qsbr = four.register 1 in_wait.qsbr;
  reader = update in_wait.reader 1 idle;
}

abbrev reported : System four
reported = record joined {
  qsbr = four.quiescent 0 joined.qsbr;
  reader = update joined.reader 0 idle;
}

reported-Walks : Walks 4 in_wait told_once reported
reported-Walks =
    walks (walks stays (register 1 (omega arith) (omega arith) refl refl)) (quiescent 0 refl refl)

all_told : (i : ℕ) → i < 4 → told_once i ≡ true
all_told i h = ground arith

wait_ends_example :
    (v w : System four) × Publishes four 4 reported v
    × Publishes four 4 v w
    × (w.writer ≡ free)
    × (w.live 1 ≡ false)
wait_ends_example = wait_ends (simple-QsbrLaws 4) 4 1 0 in_wait-Reach refl reported-Walks all_told
