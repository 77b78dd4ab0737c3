-- ===== src/Action/Effects.antt =====
-- What the writes of dp_apply_action leave alone, and what the fields hold after them.
use dpdk_high_speed_flow_rou.Prelude.{
  ℕ, ◌+◌, ◌/◌, ◌%◌, ◌≤◌, ◌<◌, ◌≡◌, ◌⊎◌, inl, inr, refl, ◌∙◌, Bool, true, false, List, Option, some,
  arith, length, ◌>>=◌, if◌then◌else◌, u16, u32,
}
use dpdk_high_speed_flow_rou.Packet.{store16, store32}
use dpdk_high_speed_flow_rou.Packet.Access.{byte, be16, be32}
use dpdk_high_speed_flow_rou.Packet.Writes.{Octets, store16-Patched}
use dpdk_high_speed_flow_rou.Action.{store16_if, store32_if}

-- `e` is as long as `d` and agrees with it on the bytes of `Q`.
pub record Keeps (Q : ℕ → Type 0) (d e : List ℕ) : Type 0 where
  pub size : length e ≡ length d
  pub octets : Octets d → Octets e
  pub same : (j : ℕ) → Q j → byte e j ≡ byte d j

abbrev pub Outside : ℕ → ℕ → ℕ → Type 0
Outside i k j = (j < i) ⊎ (i + k ≤ j)

-- A computation gives bytes that are kept so, and of which `P` holds.
abbrev pub Gives : (ℕ → Type 0) → List ℕ → Option (List ℕ) → (List ℕ → Type 0) → Type 0
Gives Q d o P = (e : List ℕ) × (o ≡ some e) × Keeps Q d e × P e

pub Keeps-trans :
    (Q R S : ℕ → Type 0) (d e f : List ℕ)
    → ((j : ℕ) → S j → Q j × R j)
    → Keeps Q d e
    → Keeps R e f
    → Keeps S d f
Keeps-trans Q R S d e f w k l = record {
  size = l.size ∙ k.size;
  octets = λ o. l.octets (k.octets o);
  same = λ j s. let (q, r) = w j s in l.same j r ∙ k.same j q;
}

-- One computation behind another.
pub bind-Gives :
    (Q R S : ℕ → Type 0) (d : List ℕ) (o : Option (List ℕ)) (f : List ℕ → Option (List ℕ))
    (P T : List ℕ → Type 0)
    → ((j : ℕ) → S j → Q j × R j)
    → Gives Q d o P
    → ((e : List ℕ) → Keeps Q d e → P e → Gives R e (f e) T)
    → Gives S d (o >>= f) T
bind-Gives Q R S d o f P T w (e, is, kept, p) next =
    let (g, was, left, t) = next e kept p in rw is (g, was, Keeps-trans Q R S d e g w kept left, t)

pub Keeps-be16 :
    (Q : ℕ → Type 0) (d e : List ℕ) (i : ℕ) → Keeps Q d e → Q i → Q (i + 1) → be16 e i ≡ be16 d i
Keeps-be16 Q d e i k a b = omega (arith, k.same i a, k.same (i + 1) b)

pub Keeps-be32 :
    (Q : ℕ → Type 0) (d e : List ℕ) (i : ℕ)
    → Keeps Q d e
    → ((j : ℕ) → i ≤ j → j < i + 4 → Q j)
    → be32 e i ≡ be32 d i
Keeps-be32 Q d e i k q =
    let at = λ (j : ℕ) (from : i ≤ j) (to : j < i + 4). k.same j (q j from to) in
    let high = at (i + 2) (omega arith) (omega arith) in
    let low = at (i + 2 + 1) (omega arith) (omega arith) in
    omega
      (arith, at i (omega arith) (omega arith), at (i + 1) (omega arith) (omega arith), high, low)

pub store16-Gives :
    (d : List ℕ) (i v : ℕ)
    → i + 1 < length d
    → Gives (Outside i 2) d (store16 d i v) (λ e. be16 e i ≡ u16 v)
store16-Gives d i v h =
    let (e, is, p, held) = store16-Patched d i v h in
    (
      e,
      is,
      record {
        size = p.same_length;
        octets = p.octets;
        same = λ j o. elim o [ inl low ↦ p.before j low | inr high ↦ p.behind j high ];
      },
      held,
    )

-- The value of a field that is written where the action asks for it.
abbrev pub asked : Bool → ℕ → ℕ → ℕ
asked b v old = if b then v else old

pub store16_if-Gives :
    (b : Bool) (d : List ℕ) (i v : ℕ)
    → i + 1 < length d
    → Gives (Outside i 2) d (store16_if b d i v) (λ e. be16 e i ≡ asked b (u16 v) (be16 d i))
unfolding store16_if
store16_if-Gives true d i v h = store16-Gives d i v h
store16_if-Gives false d i v h =
    (d, refl, record { size = refl; octets = λ o. o; same = λ j o. refl }, refl)

store32-Gives :
    (d : List ℕ) (i v : ℕ)
    → i + 3 < length d
    → Gives (Outside i 4) d (store32 d i v) (λ e. be32 e i ≡ u32 v)
unfolding store32
store32-Gives d i v h =
    bind-Gives (Outside i 2) (Outside (i + 2) 2) (Outside i 4) d (store16 d i (v / 65536 % 65536))
      (λ d₁. store16 d₁ (i + 2) (v % 65536)) (λ e. be16 e i ≡ u16 (v / 65536 % 65536))
      (λ e. be32 e i ≡ u32 v) (λ j s. ground arith) (store16-Gives d i _ (omega arith))
      (λ e k held.
        let (g, is, kept, low) = store16-Gives e (i + 2) (v % 65536) (omega (arith, k.size)) in
        let high =
          Keeps-be16 (Outside (i + 2) 2) e g i kept (inl (omega arith)) (inl (omega arith)) in
        (g, is, kept, omega (arith, low, high, held)))

pub store32_if-Gives :
    (b : Bool) (d : List ℕ) (i v : ℕ)
    → i + 3 < length d
    → Gives (Outside i 4) d (store32_if b d i v) (λ e. be32 e i ≡ asked b (u32 v) (be32 d i))
unfolding store32_if
store32_if-Gives true d i v h = store32-Gives d i v h
store32_if-Gives false d i v h =
    (d, refl, record { size = refl; octets = λ o. o; same = λ j o. refl }, refl)
