-- ===== src/Lookup/RuleSet.antt =====
-- The configured rules as a set: admitted lists up to their order, which decides the lookups.
use mathlib.Core.List.{Permᴰ}
use mathlib.Core.Quot
use mathlib.Core.Quot.{Quot}
use native.Mathlib.Nat.{ℕ_set}
use dpdk_high_speed_flow_rou.Prelude.{◌≡◌, refl, List, All}
use dpdk_high_speed_flow_rou.Packet.{Meta}
use dpdk_high_speed_flow_rou.Rules.{FlowRule, RouteRule, flow_key_from_meta}
use dpdk_high_speed_flow_rou.Snapshot.Valid.{Distinct}
use dpdk_high_speed_flow_rou.Snapshot.Unique.{AreUnique}
use dpdk_high_speed_flow_rou.Lookup.Reference.{Choice, reference}
use dpdk_high_speed_flow_rou.Lookup.Order.{find_flow-perm, IsNetwork, best_route-perm}

-- Lists of rules of which no two compete on equal terms.
pub record Config : Type 0 where
  pub flows : List FlowRule
  pub routes : List RouteRule
  pub distinct : Distinct flows
  pub networks : All IsNetwork routes
  pub unique : AreUnique routes

-- The same rules in another order.
abbrev pub SameRules : Config → Config → Type 0
SameRules c d = Permᴰ c.flows d.flows × Permᴰ c.routes d.routes

-- Configurations up to the order of their rules.
abbrev pub RuleSet : Type 0
RuleSet = Quot SameRules

pub Choice-set : IsSet Choice
Choice-set = hlevel ℕ_set

pub reference-SameRules :
    (meta : Meta) (c d : Config)
    → SameRules c d
    → reference c.flows c.routes meta ≡ reference d.flows d.routes meta
reference-SameRules meta c d (p, q) =
    rw
      (
        find_flow-perm (flow_key_from_meta meta) p c.distinct,
        best_route-perm meta.dst_ipv4 q c.networks c.unique,
      )
      refl

-- What a set of rules makes of a packet.
unfoldable pub decide : RuleSet → Meta → Choice
decide rules meta =
    Quot.lift Choice-set (λ (c : Config). reference c.flows c.routes meta)
      (reference-SameRules meta) rules
