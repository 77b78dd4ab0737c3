-- ===== src/Packet/Access.antt =====
-- Accesses within the segment: the value at an offset, and when a field may be read.
use dpdk_high_speed_flow_rou.Prelude.{
  ℕ, zero, suc, ◌+◌, ◌*◌, ◌<◌, ◌≡◌, refl, List, [], ◌∷◌, some, arith, length, get_elem?, All,
}
use dpdk_high_speed_flow_rou.Packet.{load8, load16, load32}

-- The byte at an offset, 0 past the end.
abbrev pub byte : List ℕ → ℕ → ℕ
byte [] i = 0
byte (b ∷ d) zero = b
byte (b ∷ d) (suc i) = byte d i

-- Fields of two and four bytes in network order.
abbrev pub be16 : List ℕ → ℕ → ℕ
be16 d i = byte d i * 256 + byte d (i + 1)

abbrev pub be32 : List ℕ → ℕ → ℕ
be32 d i = be16 d i * 65536 + be16 d (i + 2)

get_elem?-byte : (d : List ℕ) (i : ℕ) → i < length d → get_elem? d i ≡ some (byte d i)
get_elem?-byte [] i h = elim h [ ]
get_elem?-byte (b ∷ d) zero h = refl
get_elem?-byte (b ∷ d) (suc i) h = get_elem?-byte d i (omega arith)

pub load8-byte : (d : List ℕ) (i : ℕ) → i < length d → load8 d i ≡ some (byte d i)
unfolding load8
load8-byte d i h = get_elem?-byte d i h

pub load16-be16 : (d : List ℕ) (i : ℕ) → i + 1 < length d → load16 d i ≡ some (be16 d i)
unfolding load16
load16-be16 d i h = ground (arith, get_elem?-byte d i, get_elem?-byte d (i + 1))

pub load32-be32 : (d : List ℕ) (i : ℕ) → i + 3 < length d → load32 d i ≡ some (be32 d i)
unfolding load32
load32-be32 d i h = ground (arith, load16-be16 d i, load16-be16 d (i + 2))

pub byte-lt : (d : List ℕ) (i : ℕ) → All (λ b. b < 256) d → byte d i < 256
byte-lt [] i h = omega arith
byte-lt (b ∷ d) zero h = h.0
byte-lt (b ∷ d) (suc i) h = byte-lt d i h.1
