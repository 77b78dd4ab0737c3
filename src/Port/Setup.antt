-- ===== src/Port/Setup.antt =====
-- `setup_port` and `dp_dataplane_setup` of dataplane/native/dp_port.c.
use dpdk_high_speed_flow_rou.Prelude.{
  ℕ, zero, suc, Bool, true, false, not, ◌||◌, ◌&&◌, List, Option, none, some, leb, ◌==◌,
  if◌then◌else◌, ℤ, pos, is_neg, minus, errno_or, length, einval, enomem, enodev, ealready, enospc,
  enotsup, eio,
}
use dpdk_high_speed_flow_rou.Tables.{TableApi}
use dpdk_high_speed_flow_rou.Snapshot.Types.{Grant, granted, refused}
use dpdk_high_speed_flow_rou.State.{Dp}
use dpdk_high_speed_flow_rou.Port.Workers.{setup_workers}

unfoldable pub validate_queue_capacity : ℕ → ℕ → ℕ → ℤ
validate_queue_capacity max_rx max_tx workers =
    if leb workers max_rx && leb workers max_tx then pos 0 else minus enospc

-- What the ethdev calls answer for one port, in the order of the calls.
pub record EthPort : Type 0 where
  pub info_get : ℤ
  pub is_tap : Bool
  pub max_rx_queues : ℕ
  pub max_tx_queues : ℕ
  pub configure : ℤ
  pub adjust : ℤ
  pub rx_desc : ℕ
  pub tx_desc : ℕ
  pub rx_queue_setup : ℕ → ℤ
  pub tx_queue_setup : ℕ → ℤ
  pub start : ℤ

-- What the platform answers to one setup. `rx_found` and `tx_found` are the lookups of the devices by
-- name, with the port where there is one; `failing_queue` is `test_queue_setup_failure`, `none` for a
-- negative value.
pub record Platform : Type 0 where
  pub lcores : List ℕ
  pub socket_of : ℕ → ℤ
  pub rx_found : ℤ × ℕ
  pub tx_found : ℤ × ℕ
  pub pool : Grant
  pub eth0 : EthPort
  pub eth1 : EthPort
  pub failing_queue : Option ℕ

abbrev pub fails_at : Option ℕ → ℕ → Bool
fails_at none queue = false
fails_at (some q) queue = q == queue

-- `rounds` rounds of the loop over the queues, from `queue` on.
unfoldable pub setup_queues : EthPort → Bool → Option ℕ → ℕ → ℕ → ℤ
setup_queues eth first failing zero queue = pos 0
setup_queues eth first failing (suc rounds) queue =
    let rest = setup_queues eth first failing rounds (suc queue) in
    if is_neg (eth.rx_queue_setup queue)
    then eth.rx_queue_setup queue
    else (if first && fails_at failing queue
        then minus eio
        else (if is_neg (eth.tx_queue_setup queue) then eth.tx_queue_setup queue else rest))

-- `setup_port` up to the start: the first call that fails ends it.
unfoldable pub prepare_port : EthPort → Bool → Option ℕ → ℕ → ℤ
unfolding setup_queues
prepare_port eth first failing workers =
    if is_neg eth.configure
    then eth.configure
    else (if is_neg eth.adjust
        then eth.adjust
        else (if is_neg (setup_queues eth first failing workers 0)
            then setup_queues eth first failing workers 0
            else (if is_neg eth.start then eth.start else pos 0)))

-- The checks of one device.
unfoldable pub check_device : EthPort → ℕ → ℤ
unfolding validate_queue_capacity
check_device eth worker_count =
    if is_neg eth.info_get
    then eth.info_get
    else (if not eth.is_tap
        then minus enotsup
        else validate_queue_capacity eth.max_rx_queues eth.max_tx_queues worker_count)

module _ (api : TableApi) where
  -- A step that fails ends the setup, with the state as it is then.
  infixl 5 ◌and_then◌
  abbrev pub ◌and_then◌ : ℤ × Dp api → (Dp api → ℤ × Dp api) → ℤ × Dp api
  ◌and_then◌ (ret, dp) next = if is_neg ret then (ret, dp) else next dp

  unfoldable pub setup_port0 : EthPort → Option ℕ → Dp api → ℤ × Dp api
  unfolding prepare_port
  setup_port0 eth failing dp =
      let ret = prepare_port eth true failing (length dp.workers) in
      if is_neg ret
      then (ret, dp)
      else (pos 0, record dp { started0 = true; info = record dp.info { rx_desc = eth.rx_desc } })

  unfoldable pub setup_port1 : EthPort → Option ℕ → Dp api → ℤ × Dp api
  unfolding prepare_port
  setup_port1 eth failing dp =
      let ret = prepare_port eth false failing (length dp.workers) in
      if is_neg ret
      then (ret, dp)
      else (pos 0, record dp { started1 = true; info = record dp.info { tx_desc = eth.tx_desc } })

  -- The ports by their names: a lookup that fails writes nothing.
  unfoldable pub find_ports : Platform → Dp api → ℤ × Dp api
  find_ports p dp =
      if is_neg p.rx_found.0
      then (p.rx_found.0, dp)
      else let dp₁ : Dp api = record dp { port0 = p.rx_found.1 } in
        (if is_neg p.tx_found.0
          then (p.tx_found.0, dp₁)
          else let dp₂ : Dp api = record dp₁ { port1 = p.tx_found.1 } in
            (if dp₂.port0 == dp₂.port1 then (minus einval, dp₂) else (pos 0, dp₂)))

  unfoldable pub check_devices : Platform → ℕ → Dp api → ℤ × Dp api
  unfolding check_device
  check_devices p worker_count dp =
      if is_neg (check_device p.eth0 worker_count)
      then (check_device p.eth0 worker_count, dp)
      else (check_device p.eth1 worker_count, dp)

  -- From here on the ports are owned: DP_NB_MBUF is 4096, DP_CACHE_SIZE 128.
  unfoldable pub create_pool : Grant → Dp api → ℤ × Dp api
  create_pool g dp =
      let dp₁ : Dp api = record dp {
        owned0 = true;
        owned1 = true;
        info = record dp.info {
          rx_port = dp.port0;
          tx_port = dp.port1;
          nb_mbuf = 4096;
          cache_size = 128;
        };
      } in
      elim g [
        | refused e ↦ (errno_or e enomem, dp₁)
        | granted ↦ (pos 0, record dp₁ { pool = true })
      ]

  unfoldable pub make_ready : Dp api → ℤ × Dp api
  make_ready dp = (pos 0, record dp { ready = true })

  -- `there` says whether the names of both devices are given.
  unfoldable pub dataplane_setup : Platform → Bool → ℕ → Dp api → ℤ × Dp api
  unfolding make_ready
  dataplane_setup p there worker_count dp =
      if not dp.initialized
      then (minus enodev, dp)
      else (if dp.pool || dp.ready
          then (minus ealready, dp)
          else (if not dp.rules_configured
              then (minus einval, dp)
              else (if not there
                  then (minus einval, dp)
                  else setup_workers api p.lcores p.socket_of worker_count dp
                    and_then find_ports p
                    and_then check_devices p worker_count
                    and_then create_pool p.pool
                    and_then setup_port0 p.eth0 p.failing_queue
                    and_then setup_port1 p.eth1 p.failing_queue
                    and_then make_ready)))
