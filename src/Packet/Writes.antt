-- ===== src/Packet/Writes.antt =====
-- Writes within the segment: what a field holds after them, and that all else is as before.
use dpdk_high_speed_flow_rou.Prelude.{
  ℕ, zero, suc, ◌+◌, ◌/◌, ◌%◌, ◌≤◌, ◌<◌, ◌≡◌, refl, ◌∙◌, List, [], ◌∷◌, some, arith, length, set,
  length-set, All, ◌==◌, if◌then◌else◌,
}
use dpdk_high_speed_flow_rou.Packet.{store8, store16}
use dpdk_high_speed_flow_rou.Packet.Access.{byte, be16}

byte-set :
    (d : List ℕ) (i v j : ℕ) → i < length d → byte (set d i v) j ≡ (if i == j then v else byte d j)
byte-set [] i v j h = elim h [ ]
byte-set (b ∷ d) zero v zero h = refl
byte-set (b ∷ d) zero v (suc j) h = ground arith
byte-set (b ∷ d) (suc i) v zero h = ground arith
byte-set (b ∷ d) (suc i) v (suc j) h = ground (arith, byte-set d i v j (omega arith))

All-set : (d : List ℕ) (i v : ℕ) → v < 256 → All (λ b. b < 256) d → All (λ b. b < 256) (set d i v)
All-set [] i v h a = tt
All-set (b ∷ d) zero v h a = (h, a.1)
All-set (b ∷ d) (suc i) v h a = (a.0, All-set d i v h a.1)

abbrev pub Octets : List ℕ → Type 0
Octets = All (λ b. b < 256)

-- `e` is `d` with other bytes in `[at, at + size)` only.
pub record Patched (d e : List ℕ) (at size : ℕ) : Type 0 where
  pub same_length : length e ≡ length d
  pub octets : Octets d → Octets e
  pub before : (j : ℕ) → j < at → byte e j ≡ byte d j
  pub behind : (j : ℕ) → at + size ≤ j → byte e j ≡ byte d j

-- A write in bounds succeeds and changes its field alone.
pub store16-Patched :
    (d : List ℕ) (i v : ℕ)
    → i + 1 < length d
    → (e : List ℕ) × (store16 d i v ≡ some e) × Patched d e i 2 × (be16 e i ≡ v % 65536)
unfolding store16 store8
store16-Patched d i v h =
    let high = v / 256 % 256 in
    let low = v % 256 in
    let d₁ = set d i high in
    let e = set d₁ (i + 1) low in
    let same = length-set d i high in
    let fits : i + 1 < length d₁ = omega (arith, same) in
    (
      e,
      ground (arith, same),
      record {
        same_length = length-set d₁ (i + 1) low ∙ same;
        octets = λ o. All-set d₁ (i + 1) low (omega arith) (All-set d i high (omega arith) o);
        before = λ j b.
            ground (arith, byte-set d₁ (i + 1) low j fits, byte-set d i high j (omega arith));
        behind = λ j b.
            ground (arith, byte-set d₁ (i + 1) low j fits, byte-set d i high j (omega arith));
      },
      ground (
        arith,
        byte-set d₁ (i + 1) low i fits,
        byte-set d i high i (omega arith),
        byte-set d₁ (i + 1) low (i + 1) fits,
      ),
    )
