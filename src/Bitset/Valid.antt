-- ===== src/Bitset/Valid.antt =====
-- The bit view of a bitset and the invariant of its operations (bitset/bitset.c).
use libakio.Prelude.{
  ℕ, zero, suc, ◌+◌, ◌/◌, ◌%◌, ◌^◌, ◌<◌, ◌≡◌, List, arith, length, get_or, set, replicate,
  get_or-set_self, get_or-set_ne, ◌==◌, ==_iff, Bool-cases, inl, inr,
}
use libakio.Bitset.{Bitset, nbytes, bit_of}

-- No wrap in `length + 7`, a block of exactly the bytes needed, and bytes in it.
pub record IsValid (s : Bitset) : Type 0 where
  pub small : s.length + 7 < 2 ^ 64
  pub size : length s.bytes ≡ (s.length + 7) / 8
  pub bytes : (i : ℕ) → get_or s.bytes i 0 < 256

-- the value of bit `n`
abbrev pub bit : Bitset → ℕ → ℕ
bit s n = bit_of (get_or s.bytes (n / 8) 0) (n % 8)

pub nbytes-exact : (n : ℕ) → n + 7 < 2 ^ 64 → nbytes n ≡ (n + 7) / 8
nbytes-exact n h = omega arith

pub get_or-set-lt :
    (xs : List ℕ) (i j v : ℕ)
    → v < 256
    → ((i : ℕ) → get_or xs i 0 < 256)
    → i < length xs
    → get_or (set xs i v) j 0 < 256
get_or-set-lt xs i j v hv all hi = elim (Bool-cases (i == j)) [
  | inl e ↦ rw (← (==_iff i j).0 e, get_or-set_self xs i v 0 hi) hv
  | inr e ↦ rw (get_or-set_ne xs i j v 0 (ground arith)) (all j)
]

pub get_or-replicate-lt : (n i c : ℕ) → c < 256 → get_or (replicate n c) i 0 < 256
get_or-replicate-lt zero i c h = omega arith
get_or-replicate-lt (suc n) zero c h = h
get_or-replicate-lt (suc n) (suc i) c h = get_or-replicate-lt n i c h
