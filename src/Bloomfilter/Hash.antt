-- ===== src/Bloomfilter/Hash.antt =====
-- `murmurhash2` and `_bloom_hash` (bloomfilter/bloomfilter.c), on 32-bit words. A `char *` is the
-- list of its bytes before the terminating zero.
use libakio.Prelude.{ℕ, ◌+◌, ◌*◌, ◌^◌, bit_xor, List, [], ◌∷◌, length, shr, shl, wrap}

abbrev m : ℕ
m = 0x5bd1e995

-- `*(uint32_t *)data` on a little-endian machine
abbrev word : ℕ → ℕ → ℕ → ℕ → ℕ
word a b c d = a + b * 2 ^ 8 + c * 2 ^ 16 + d * 2 ^ 24

mix : ℕ → ℕ → ℕ
mix h k =
    let k₁ : ℕ = wrap 32 (k * m) in
    let k₂ : ℕ = bit_xor k₁ (shr k₁ 24) in
    let k₃ : ℕ = wrap 32 (k₂ * m) in bit_xor (wrap 32 (h * m)) k₃

-- The loop over words of four bytes, then the `switch` on the bytes left, which falls through.
absorb : ℕ → List ℕ → ℕ
unfolding mix
absorb h (a ∷ b ∷ c ∷ d ∷ rest) = absorb (mix h (word a b c d)) rest
absorb h (a ∷ b ∷ c ∷ []) = wrap 32 (bit_xor (bit_xor (bit_xor h (shl 32 c 16)) (shl 32 b 8)) a * m)
absorb h (a ∷ b ∷ []) = wrap 32 (bit_xor (bit_xor h (shl 32 b 8)) a * m)
absorb h (a ∷ []) = wrap 32 (bit_xor h a * m)
absorb h [] = h

finish : ℕ → ℕ
finish h =
    let h₁ : ℕ = bit_xor h (shr h 13) in let h₂ : ℕ = wrap 32 (h₁ * m) in bit_xor h₂ (shr h₂ 15)

unfoldable pub murmurhash2 : List ℕ → ℕ → ℕ → ℕ
unfolding absorb finish
murmurhash2 key len seed = finish (absorb (wrap 32 (bit_xor seed len)) key)

unfoldable pub bloom_hash : List ℕ → ℕ
unfolding murmurhash2
bloom_hash key = murmurhash2 key (length key) 0xbc9f1d34
