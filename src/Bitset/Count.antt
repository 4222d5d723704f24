-- ===== src/Bitset/Count.antt =====
-- `bitset_count` (bitset/bitset.c): what its rounds add up, and the round too many.
use libakio.Prelude.{
  ℕ, zero, suc, ◌+◌, ◌*◌, ◌/◌, ◌%◌, ◌^◌, ◌<◌, ◌≤◌, ◌≡◌, refl, List, Bool, true, ◌&&◌, some, arith,
  ltb, ◌==◌, length, get_or, ok, fault, read-in, read-out, bit_and, shr, wrap, holds_below,
  holds_below_sound, Bool-cases, inl, inr,
}
use native.Mathlib.Nat.{zero-add}
use libakio.Bitset
use libakio.Bitset.{Bitset, bit_of, nbytes, nibble_count, count_loop}
use libakio.Bitset.Valid.{IsValid, bit}

-- f 0 + ... + f (n - 1)
unfoldable pub sum_below : (ℕ → ℕ) → ℕ → ℕ
sum_below f zero = 0
sum_below f (suc n) = sum_below f n + f n

byte_ones : ℕ → ℕ
unfolding sum_below
byte_ones c = sum_below (bit_of c) 8

nibbles : ℕ → ℕ
nibbles c = get_or nibble_count (bit_and c 0xF) 0 + get_or nibble_count (shr c 4) 0

byte_checks : ℕ → Bool
byte_checks c =
    ltb (bit_and c 0xF) 16
    && (ltb (shr c 4) 16 && ((nibbles c == byte_ones c) && ltb (byte_ones c) 9))

byte_table : holds_below byte_checks 256 ≡ true
unfolding holds_below byte_checks nibbles byte_ones
byte_table = refl

record Byte (c : ℕ) : Type 0 where
  low : bit_and c 0xF < 16
  high : shr c 4 < 16
  ones : nibbles c ≡ byte_ones c
  few : byte_ones c < 9

byte_lem : (c : ℕ) → c < 256 → Byte c
unfolding byte_checks
byte_lem c h =
    let found : byte_checks c ≡ true = holds_below_sound byte_checks 256 byte_table c h in
    ground arith

sum_below-add :
    (f g : ℕ → ℕ) (n k m : ℕ)
    → n + k ≡ m
    → ((j : ℕ) → j < k → f (n + j) ≡ g j)
    → sum_below f m ≡ sum_below f n + sum_below g k
unfolding sum_below
sum_below-add f g n zero m e h = let same : n ≡ m = omega arith in rw (← same) (omega arith)
sum_below-add f g n (suc k) zero e h = absurd (omega arith)
sum_below-add f g n (suc k) (suc m) e h =
    let last : f m ≡ g k = let same : n + k ≡ m = omega arith in rw same at (h k (omega arith)) in
    omega (arith, last, sum_below-add f g n k m (omega arith) (λ j lt. h j (omega arith)))

sum_below-le : (f : ℕ → ℕ) (n : ℕ) → ((i : ℕ) → f i ≤ 1) → sum_below f n ≤ n
unfolding sum_below
sum_below-le f zero h = omega arith
sum_below-le f (suc n) h = omega (arith, h n, sum_below-le f n h)

-- bit `n` of a block of bytes
abbrev pub bit_in : List ℕ → ℕ → ℕ
bit_in bs n = bit_of (get_or bs (n / 8) 0) (n % 8)

sum_below-byte :
    (bs : List ℕ) (i : ℕ)
    → sum_below (bit_in bs) (8 * (i + 1))
      ≡ sum_below (bit_in bs) (8 * i) + byte_ones (get_or bs i 0)
unfolding byte_ones
sum_below-byte bs i =
    sum_below-add (bit_in bs) (bit_of (get_or bs i 0)) (8 * i) 8 (8 * (i + 1)) (omega arith) λ j lt.
      let e : (8 * i + j) / 8 ≡ i = omega arith in
      let e' : (8 * i + j) % 8 ≡ j = omega arith in rw (e, e')

module _ (bs : List ℕ) (all : (i : ℕ) → get_or bs i 0 < 256) where
  -- the rounds from byte `i`, while they stay inside the block
  count_loop-sum :
      (rounds i total : ℕ)
      → i + rounds ≤ length bs
      → total ≡ sum_below (bit_in bs) (8 * i)
      → total ≤ 8 * i
      → 8 * (i + rounds) < 2 ^ 64
      → count_loop rounds i bs total ≡ ok (sum_below (bit_in bs) (8 * (i + rounds)))
  unfolding count_loop nibbles
  count_loop-sum zero i total fits e le small = let same : i + 0 ≡ i = omega arith in rw (same, e)
  count_loop-sum (suc rounds) i total fits e le small =
      let b = byte_lem (get_or bs i 0) (all i) in
      let same : i + suc rounds ≡ i + 1 + rounds = omega arith in
      let step =
        count_loop-sum rounds (i + 1) (total + byte_ones (get_or bs i 0)) (omega arith)
          (omega (arith, sum_below-byte bs i)) (omega (arith, b.few)) (omega arith) in
      let sum : wrap 64 (total + nibbles (get_or bs i 0)) ≡ total + byte_ones (get_or bs i 0) =
        omega (arith, b.ones, b.few) in
      rw
        (
          read-in bs i 0 (omega arith),
          read-in nibble_count (bit_and (get_or bs i 0) 0xF) 0 b.low,
          read-in nibble_count (shr (get_or bs i 0) 4) 0 b.high,
          sum,
          same,
        )
        step

  count_loop-overrun :
      (rounds i total : ℕ)
      → i ≤ length bs
      → length bs < i + rounds
      → count_loop rounds i bs total ≡ fault
  unfolding count_loop
  count_loop-overrun zero i total le h = absurd (omega arith)
  count_loop-overrun (suc rounds) i total le h = elim (Bool-cases (ltb i (length bs))) [
    | inr e ↦ rw (read-out bs i (ground arith))
    | inl e ↦
        let b = byte_lem (get_or bs i 0) (all i) in
        rw
          (
            read-in bs i 0 (ground arith),
            read-in nibble_count (bit_and (get_or bs i 0) 0xF) 0 b.low,
            read-in nibble_count (shr (get_or bs i 0) 4) 0 b.high,
          )
          (count_loop-overrun rounds (i + 1) _ (ground arith) (omega arith))
  ]

-- The rounds over the set's own bytes add up its bits, and the round after them, which
-- `i <= nbytes` lets in, reads past the block.
pub count-overrun :
    {s : Bitset}
    → IsValid s
    → (count_loop (nbytes s.length) 0 s.bytes 0 ≡ ok (sum_below (bit s) (8 * nbytes s.length)))
      × (Bitset.count (some s) ≡ fault)
unfolding Bitset.count sum_below
count-overrun {s} v = (
  rw zero-add at (
      count_loop-sum s.bytes v.bytes (nbytes s.length) 0 0 (omega arith) refl (omega arith)
        (omega (arith, v.small))),
  count_loop-overrun s.bytes v.bytes (nbytes s.length + 1) 0 0 (omega arith)
      (omega (arith, v.small, v.size)),
)
