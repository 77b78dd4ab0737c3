-- ===== src/Worker/Stop.antt =====
-- The request of the control path in dataplane/native/dp_worker.c.
use dpdk_high_speed_flow_rou.Prelude.{true}
use dpdk_high_speed_flow_rou.Tables.{TableApi}
use dpdk_high_speed_flow_rou.State.{Dp}

-- `dp_dataplane_request_stop`
unfoldable pub dataplane_request_stop : (api : TableApi) → Dp api → Dp api
dataplane_request_stop api dp = record dp { stop = true }
