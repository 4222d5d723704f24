-- ===== src/Bitset/Access.antt =====
-- `bitset_get` and `bitset_set` (bitset/bitset.c) against the bit view.
use libakio.Prelude.{
  ℕ, ◌/◌, ◌%◌, ◌<◌, ◌≡◌, ◌↔◌, refl, arith, some, ◌==◌, if◌then◌else◌, ok, fault, ◌>>=◌, read-in,
  read-out, write-in, set, get_or, get_or-set_self, get_or-set_ne, Bool-cases, inl, inr, ==_iff,
  length-set,
}
use libakio.Bitset
use libakio.Bitset.{Bitset, bit_of, put_bit}
use libakio.Bitset.Byte.{put_bit-lt, bit_of-put_bit}
use libakio.Bitset.Valid.{IsValid, bit, get_or-set-lt}

module _ {s : Bitset} (v : IsValid s) (n : ℕ) where
  -- Below the length, `bitset_get` reads the bit.
  pub get-bit : n < s.length → Bitset.get (some s) n ≡ ok (bit s n)
  unfolding Bitset.get
  get-bit h = rw (read-in s.bytes (n / 8) 0 (omega arith)) (ground arith)

  -- On a valid set `bitset_get` reads outside the block exactly at the bit number that is the length,
  -- where the length is a multiple of 8.
  pub get-fault_iff : (Bitset.get (some s) n ≡ fault) ↔ ((n ≡ s.length) × (s.length % 8 ≡ 0))
  unfolding Bitset.get
  get-fault_iff =
      (ground (arith, read-in s.bytes (n / 8) 0), ground (arith, read-out s.bytes (n / 8)))

  -- `bitset_get` of a bit number past the length is 0, and `bitset_set` there returns 0 and changes
  -- nothing.
  pub past_length :
      (b : ℕ)
      → s.length < n
      → (Bitset.get (some s) n ≡ ok 0) × (Bitset.set (some s) n b ≡ ok (0, some s))
  unfolding Bitset.get Bitset.set
  past_length b h = (ground arith, ground arith)

-- `r` is `s` with bit `n` set to `b`.
pub record Sets (s : Bitset) (n b : ℕ) (r : Bitset) : Type 0 where
  pub valid : IsValid r
  pub length : r.length ≡ s.length
  pub bits : (m : ℕ) → m < s.length → bit r m ≡ (if n == m then b else bit s m)

module _ {s : Bitset} (v : IsValid s) (n b : ℕ) (h : n < s.length) (hb : b < 2) where
  abbrev byte : ℕ
  byte = get_or s.bytes (n / 8) 0

  after : Bitset
  after = record s { bytes = set s.bytes (n / 8) (put_bit byte (n % 8) b) }

  after-bits : (m : ℕ) → m < s.length → bit after m ≡ (if n == m then b else bit s m)
  unfolding after
  after-bits m hm = elim (Bool-cases (n / 8 == m / 8)) [
    | inl e ↦
        rw
          (
            ← (==_iff (n / 8) (m / 8)).0 e,
            get_or-set_self s.bytes (n / 8) _ 0 (omega (arith, v.size)),
          )
          (ground (
            arith,
            bit_of-put_bit byte (n % 8) (m % 8) b (v.bytes (n / 8)) (omega arith) (omega arith) hb,
          ))
    | inr e ↦ rw (get_or-set_ne s.bytes (n / 8) (m / 8) _ 0 (ground arith)) (ground arith)
  ]

  after-IsValid : IsValid after
  unfolding after
  after-IsValid = record {
    small = v.small;
    size = rw length-set v.size;
    bytes = λ i.
        get_or-set-lt s.bytes (n / 8) i _
          (put_bit-lt byte (n % 8) 0 b (v.bytes (n / 8)) (omega arith) (omega arith) hb) v.bytes
          (omega (arith, v.size));
  }

  -- Below the length, `bitset_set` returns the old bit, writes the new one and keeps the others.
  pub set-Sets : (r : Bitset) × (Bitset.set (some s) n b ≡ ok (bit s n, some r)) × Sets s n b r
  unfolding Bitset.set after
  set-Sets = (
    after,
    rw
        (
          read-in s.bytes (n / 8) 0 (omega (arith, v.size)),
          write-in s.bytes (n / 8) _ (omega (arith, v.size)),
        )
        (ground arith),
    record { valid = after-IsValid; length = refl; bits = after-bits },
  )

-- For a bit number below the length and the value 0 or 1, `bitset_set` returns what `bitset_get`
-- read there before; afterwards `bitset_get` reads the new value there, and at every other bit
-- below the length what it read before. The set stays valid and keeps its length.
pub get-set :
    {s : Bitset} (n b : ℕ)
    → IsValid s
    → n < s.length
    → b < 2
    → (r : Bitset) × (Bitset.get (some s) n >>= (λ old. ok (old, some r)) ≡ Bitset.set (some s) n b)
      × IsValid r
      × (r.length ≡ s.length)
      × ((m : ℕ)
          → m < s.length
          → Bitset.get (some r) m ≡ (if n == m then ok b else Bitset.get (some s) m))
get-set {s} n b v h hb =
    let (r, run, sets) = set-Sets v n b h hb in
    (
      r,
      rw (get-bit v n h, run),
      sets.valid,
      sets.length,
      λ m lt.
          rw (get-bit sets.valid m (omega (arith, sets.length)), get-bit v m lt, sets.bits m lt)
            (elim (Bool-cases (n == m)) [ inl e ↦ rw e | inr e ↦ rw e ]),
    )
