-- ===== src/Prelude/Bits.antt =====
-- Fixed-width operations of C on unsigned words: shifts, complement and the wrap of a store.
use Prim.Native.Nat.{ℕ, ◌-◌, ◌*◌, ◌/◌, ◌%◌, ◌^◌}

-- `x >> k`
abbrev pub shr : ℕ → ℕ → ℕ
shr x k = x / 2 ^ k

-- The low `w` bits of a value: what a store into a `w`-bit word keeps.
abbrev pub wrap : ℕ → ℕ → ℕ
wrap w x = x % 2 ^ w

-- `x << k` in a `w`-bit word
abbrev pub shl : ℕ → ℕ → ℕ → ℕ
shl w x k = wrap w (x * 2 ^ k)

-- `~x` in a `w`-bit word
abbrev pub bit_not : ℕ → ℕ → ℕ
bit_not w x = 2 ^ w - 1 - x % 2 ^ w
