-- ===== src/Bitset/Fill.antt =====
-- `bitset_new`, `bitset_setall` and `bitset_clearall` (bitset/bitset.c) against the bit view.
use libakio.Prelude.{
  ℕ, ◌+◌, ◌-◌, ◌*◌, ◌/◌, ◌%◌, ◌^◌, ◌<◌, ◌≡◌, ◌⊎◌, inl, inr, refl, zero, suc, Bool, set, ◌||◌, ◌&&◌,
  holds_below, holds_below_sound, get_or-set_self, get_or-set_ne, get_or-out, length-set,
  Bool-cases, read-in, write-in, leb, wrap, Option-cases, arith, none, some, ltb, ◌==◌,
  if◌then◌else◌, length, ok, Returns, memset-all, get_or, replicate, get_or-replicate,
  length-replicate, List, bit_and, true, false,
}
use libakio.Bitset
use libakio.Bitset.{Bitset, Malloc, bit_of, nbytes, clear_block, trim, lsbmask}
use libakio.Bitset.Valid.{IsValid, bit, nbytes-exact, get_or-replicate-lt}

-- `malloc` returns as many bytes as it was asked for, or NULL.
abbrev pub IsMalloc : Malloc → Type 0
IsMalloc m = (n : ℕ) (block : List ℕ) → m.block n ≡ some block → length block ≡ n

-- A set of `len` bits whose bytes are all `c`
abbrev pub filled : ℕ → ℕ → Bitset
filled len c = record { length = len; bytes = replicate ((len + 7) / 8) c }

filled-IsValid : (len c : ℕ) → len + 7 < 2 ^ 64 → c < 256 → IsValid (filled len c)
filled-IsValid len c h hc = record {
  small = h;
  size = length-replicate ((len + 7) / 8) c;
  bytes = λ i. get_or-replicate-lt ((len + 7) / 8) i c hc;
}

zero-bit : (k : ℕ) → bit_of 0 k ≡ 0
zero-bit k = let e : 0 / 2 ^ k ≡ 0 = omega arith in rw e

filled-bit : (len n : ℕ) → n < len → bit (filled len 0) n ≡ 0
filled-bit len n h =
    rw (get_or-replicate {A = ℕ} ((len + 7) / 8) (n / 8) 0 0 (omega arith)) (zero-bit (n % 8))

-- `r` is a set of `len` bits, all `b`.
pub record IsAll (len b : ℕ) (r : Bitset) : Type 0 where
  pub valid : IsValid r
  pub length : r.length ≡ len
  pub bits : (n : ℕ) → n < len → bit r n ≡ b

pub filled-IsAll : (len : ℕ) → len + 7 < 2 ^ 64 → IsAll len 0 (filled len 0)
filled-IsAll len h = record {
  valid = filled-IsValid len 0 h (omega arith);
  length = refl;
  bits = filled-bit len;
}

pub new-filled :
    (m : Malloc) (len : ℕ) (block : List ℕ)
    → IsMalloc m
    → len + 7 < 2 ^ 64
    → m.struct_fits ≡ true
    → m.block ((len + 7) / 8) ≡ some block
    → Bitset.new m len ≡ ok (some (filled len 0))
unfolding Bitset.new
new-filled m len block hm h fits e =
    let exact = nbytes-exact len h in
    rw (
      fits,
      exact,
      e,
      clear_block,
      exact,
      memset-all block 0 ((len + 7) / 8) (hm ((len + 7) / 8) block e),
    )

-- `bitset_new` does not fault. It returns NULL if one of the two `malloc` calls does, and otherwise
-- a valid set of `length` zero bits.
pub new-IsAll :
    (m : Malloc) (len : ℕ)
    → IsMalloc m
    → len + 7 < 2 ^ 64
    → Returns (Bitset.new m len) λ t.
      ((t ≡ none) × ((m.struct_fits ≡ false) ⊎ (m.block ((len + 7) / 8) ≡ none)))
      ⊎ ((r : Bitset) × (t ≡ some r) × IsAll len 0 r)
unfolding Bitset.new
new-IsAll m len hm h = elim (Bool-cases m.struct_fits) [
  | inr e ↦ (none, rw e, inl (refl, inl e))
  | inl e ↦ elim (Option-cases (m.block ((len + 7) / 8))) [
    | inl f ↦ (none, rw (e, nbytes-exact len h, f), inl (refl, inr f))
    | inr (block, f) ↦ (
      some (filled len 0),
      unfold Bitset.new in new-filled m len block hm h e f,
      inr (filled len 0, refl, filled-IsAll len h),
    )
  ]
]

-- bitset_clearall on a valid set ends without a fault, the set stays valid with its length, and
-- every bit below the length is 0.
pub clear_all-IsAll :
    {s : Bitset}
    → IsValid s
    → (r : Bitset) × (Bitset.clear_all (some s) ≡ ok (some r)) × IsAll s.length 0 r
unfolding Bitset.clear_all
clear_all-IsAll {s} v = (
  filled s.length 0,
  rw (
    memset-all s.bytes 0 (nbytes s.length) (omega (arith, v.size, v.small)),
    nbytes-exact s.length v.small,
  ),
  filled-IsAll s.length v.small,
)

-- the last byte after `m` bits past the length were cut off
top_byte : ℕ → ℕ
top_byte zero = 255
top_byte (suc m) = bit_and 255 (get_or lsbmask m 0)

top_byte-checks : ℕ → Bool
top_byte-checks x =
    ltb (top_byte (x / 8)) 256
    && (leb 8 (x / 8 + x % 8) || (bit_of (top_byte (x / 8)) (x % 8) == 1))

top_byte_table : holds_below top_byte-checks 64 ≡ true
unfolding holds_below top_byte-checks top_byte
top_byte_table = refl

top_byte-fields :
    (x m k : ℕ)
    → x / 8 ≡ m
    → x % 8 ≡ k
    → top_byte-checks x ≡ true
    → (top_byte m < 256) × (m + k < 8 → bit_of (top_byte m) k ≡ 1)
unfolding top_byte-checks
top_byte-fields x m k e f h = rw (← e, ← f) (ground arith, λ lt. ground arith)

top_byte_lem :
    (m k : ℕ) → m < 8 → k < 8 → (top_byte m < 256) × (m + k < 8 → bit_of (top_byte m) k ≡ 1)
top_byte_lem m k hm hk =
    top_byte-fields (m * 8 + k) m k (omega arith) (omega arith)
      (holds_below_sound top_byte-checks 64 top_byte_table _ (omega arith))

top_byte_zero : top_byte 0 ≡ 255
unfolding top_byte
top_byte_zero = refl

-- `bs` is `n` bytes of ones, the last one cut by `m` bits.
record Trimmed (n m : ℕ) (bs : List ℕ) : Type 0 where
  size : length bs ≡ n
  reads : (i : ℕ) → i < n → get_or bs i 0 ≡ (if i + 1 == n then top_byte m else 255)

trim-Trimmed :
    (n m : ℕ) → m < 8 → (m ≡ 0) ⊎ (0 < n) → Returns (trim n m (replicate n 255)) (Trimmed n m)
unfolding trim top_byte
trim-Trimmed n zero hm hn = (
  replicate n 255,
  refl,
  record {
    size = length-replicate n 255;
    reads = λ i hi. rw (get_or-replicate {A = ℕ} n i 255 0 hi) (ground arith);
  },
)
trim-Trimmed n (suc m) hm hn =
    let full : List ℕ = replicate n 255 in
    let size : length full ≡ n = length-replicate n 255 in
    let inside : n - 1 < length full = omega arith in
    let last : get_or full (n - 1) 0 ≡ 255 =
      get_or-replicate {A = ℕ} n (n - 1) 255 0 (omega arith) in
    (
      set full (n - 1) (top_byte (suc m)),
      rw (
        read-in lsbmask m 0 (omega arith),
        read-in full (n - 1) 0 inside,
        last,
        write-in full (n - 1) (bit_and 255 (get_or lsbmask m 0)) inside,
      ),
      record {
        size = rw length-set size;
        reads = λ i hi. elim (Bool-cases (i + 1 == n)) [
          | inl e ↦
              let at_end : n - 1 ≡ i = ground arith in
              rw (e, at_end) (get_or-set_self full i (top_byte (suc m)) 0 (omega arith))
          | inr e ↦
              rw (e, get_or-set_ne full (n - 1) i (top_byte (suc m)) 0 (ground arith))
                (get_or-replicate {A = ℕ} n i 255 0 hi)
        ];
      },
    )

module _ {s : Bitset} (v : IsValid s) where
  abbrev needed : ℕ
  needed = (s.length + 7) / 8

  abbrev spare : ℕ
  spare = needed * 8 - s.length

  Trimmed-lt : (bs : List ℕ) → Trimmed needed spare bs → (i : ℕ) → get_or bs i 0 < 256
  Trimmed-lt bs t i = elim (Bool-cases (ltb i needed)) [
    | inl e ↦ rw (t.reads i (ground arith)) (ground (arith, top_byte_lem spare 0 (omega arith)))
    | inr e ↦ rw (get_or-out bs i 0 (ground (arith, t.size))) (omega arith)
  ]

  Trimmed-IsAll :
      (bs : List ℕ)
      → Trimmed needed spare bs
      → IsAll s.length 1 (record { length = s.length; bytes = bs })
  Trimmed-IsAll bs t = record {
    valid = record { small = v.small; size = t.size; bytes = Trimmed-lt bs t };
    length = refl;
    bits = λ n h. rw (t.reads (n / 8) (omega arith)) (
        ground (
          arith,
          top_byte_lem spare (n % 8) (omega arith) (omega arith),
          top_byte_lem 0 (n % 8) (omega arith) (omega arith),
          top_byte_zero,
        ));
  }

  set_all-trim :
      (bs : List ℕ)
      → trim needed spare (replicate needed 255) ≡ ok bs
      → Bitset.set_all (some s) ≡ ok (some (record { length = s.length; bytes = bs }))
  unfolding Bitset.set_all
  set_all-trim bs run =
      let exact : nbytes s.length ≡ needed = nbytes-exact s.length v.small in
      let cut : wrap 32 (needed * 8 + 2 ^ 64 - s.length) ≡ spare = omega (arith, v.small) in
      rw (exact, memset-all s.bytes 255 needed v.size, cut, run)

  -- bitset_setall on a valid set ends without a fault, the set stays valid with its length, and
  -- every bit below the length is 1.
  pub set_all-IsAll : (r : Bitset) × (Bitset.set_all (some s) ≡ ok (some r)) × IsAll s.length 1 r
  set_all-IsAll =
      let (bs, run, t) = trim-Trimmed needed spare (omega arith) (ground arith) in
      (record { length = s.length; bytes = bs }, set_all-trim bs run, Trimmed-IsAll bs t)
