-- ===== src/Bitset.antt =====
-- bitset/bitset.c: an array of bits in bytes. A pointer that may be NULL is an `Option`.
pub mod Byte
pub mod Valid
pub mod Access
pub mod Fill
pub mod Count
mod Tests
use libakio.Prelude.{
  ℕ, zero, suc, ◌+◌, ◌-◌, ◌*◌, ◌/◌, ◌%◌, ◌^◌, bit_and, bit_or, Bool, true, false, not, ◌||◌, ◌&&◌,
  Option, none, some, List, [], ◌∷◌, ltb, ◌==◌, if◌then◌else◌, Run, ok, fault, ◌>>=◌, read, write,
  memset, shr, shl, wrap, bit_not,
}

-- `bytes` is the block that `malloc` returned
pub record Bitset : Type 0 where
  pub length : ℕ
  pub bytes : List ℕ

-- What `malloc` does: whether it finds room for the struct, and the block of `n` bytes with
-- whatever they hold, or NULL.
pub record Malloc : Type 0 where
  pub struct_fits : Bool
  pub block : ℕ → Option (List ℕ)

-- `(length + 7) / 8` in `unsigned long`
abbrev pub nbytes : ℕ → ℕ
nbytes length = wrap 64 (length + 7) / 8

clear_block : ℕ → Option (List ℕ) → Run (Option Bitset)
clear_block length none = ok none
clear_block length (some block) =
    memset block 0 (nbytes length) >>= λ bs. ok (some (record { length = length; bytes = bs }))

unfoldable pub new : Malloc → ℕ → Run (Option Bitset)
unfolding clear_block
new m length = if m.struct_fits then clear_block length (m.block (nbytes length)) else ok none

-- `bytes[n/8] >> (n % 8) & 1`
abbrev pub bit_of : ℕ → ℕ → ℕ
bit_of byte k = bit_and (shr byte k) 1

unfoldable pub get : Option Bitset → ℕ → Run ℕ
get none n = ok 0
get (some s) n =
    if ltb s.length n then ok 0 else read s.bytes (n / 8) >>= λ byte. ok (bit_of byte (n % 8))

-- `|= (1 << k)` and `&= ~(1 << k)` on an `unsigned char`, computed in a 32-bit `int`
abbrev pub put_bit : ℕ → ℕ → ℕ → ℕ
put_bit byte k bit =
    if bit == 1
    then wrap 8 (bit_or byte (shl 32 1 k))
    else wrap 8 (bit_and byte (bit_not 32 (shl 32 1 k)))

-- The value and the set after the call; a NULL set stays NULL.
unfoldable pub set : Option Bitset → ℕ → ℕ → Run (ℕ × Option Bitset)
set none n bit = ok (0, none)
set (some s) n bit =
    if ltb s.length n || (not (bit == 0) && not (bit == 1)) then ok (0, some s) else (do
      byte ← read s.bytes (n / 8)
      bs ← write s.bytes (n / 8) (put_bit byte (n % 8) bit)
      ok (bit_of byte (n % 8), some (record s { bytes = bs })))

abbrev pub lsbmask : List ℕ
lsbmask = 0x7F ∷ 0x3F ∷ 0x1F ∷ 0x0F ∷ 0x07 ∷ 0x03 ∷ 0x01 ∷ []

-- `if (mbits) set->bytes[nbytes-1] &= lsbmask[mbits-1];`
trim : ℕ → ℕ → List ℕ → Run (List ℕ)
trim n zero bs = ok bs
trim n (suc m) bs = do
  mask ← read lsbmask m
  byte ← read bs (n - 1)
  write bs (n - 1) (bit_and byte mask)

-- `mbits` is cut to an `int`
unfoldable pub set_all : Option Bitset → Run (Option Bitset)
unfolding trim
set_all none = ok none
set_all (some s) = do
  filled ← memset s.bytes 0xFF (nbytes s.length)
  trimmed ← trim (nbytes s.length) (wrap 32 (nbytes s.length * 8 + 2 ^ 64 - s.length)) filled
  ok (some (record s { bytes = trimmed }))

unfoldable pub clear_all : Option Bitset → Run (Option Bitset)
clear_all none = ok none
clear_all (some s) = do bs ← memset s.bytes 0 (nbytes s.length); ok (some (record s { bytes = bs }))

unfoldable pub get_length : Option Bitset → ℕ
get_length none = 0
get_length (some s) = s.length

abbrev pub nibble_count : List ℕ
nibble_count = 0 ∷ 1 ∷ 1 ∷ 2 ∷ 1 ∷ 2 ∷ 2 ∷ 3 ∷ 1 ∷ 2 ∷ 2 ∷ 3 ∷ 2 ∷ 3 ∷ 3 ∷ 4 ∷ []

-- The rounds of `for (i = 0; i <= nbytes; i++)` that are left, from index `i`.
unfoldable pub count_loop : ℕ → ℕ → List ℕ → ℕ → Run ℕ
count_loop zero i bs total = ok total
count_loop (suc rounds) i bs total = do
  c ← read bs i
  low ← read nibble_count (bit_and c 0xF)
  high ← read nibble_count (shr c 4)
  count_loop rounds (i + 1) bs (wrap 64 (total + (low + high)))

unfoldable pub count : Option Bitset → Run ℕ
unfolding count_loop
count none = ok 0
count (some s) = count_loop (nbytes s.length + 1) 0 s.bytes 0
