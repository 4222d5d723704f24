-- ===== src/Bitset/Byte.antt =====
-- Facts about one byte of a bitset, found by checking every byte and bit.
use libakio.Prelude.{
  ℕ, ◌+◌, ◌*◌, ◌/◌, ◌%◌, ◌<◌, ◌≡◌, refl, Bool, true, ◌&&◌, arith, ltb, ◌==◌, if◌then◌else◌,
  holds_below, holds_below_sound,
}
use libakio.Bitset.{bit_of, put_bit}

agrees : ℕ → ℕ → ℕ → ℕ → Bool
agrees byte k j bit =
    ltb (put_bit byte k bit) 256
    && (bit_of (put_bit byte k bit) j == (if k == j then bit else bit_of byte j))

agrees_code : ℕ → Bool
unfolding agrees
agrees_code x = agrees (x / 128) (x / 16 % 8) (x / 2 % 8) (x % 2)

agrees_table : holds_below agrees_code 32768 ≡ true
unfolding holds_below agrees_code
agrees_table = refl

agrees-fields :
    (x byte k j bit : ℕ)
    → x / 128 ≡ byte
    → x / 16 % 8 ≡ k
    → x / 2 % 8 ≡ j
    → x % 2 ≡ bit
    → agrees_code x ≡ true
    → agrees byte k j bit ≡ true
unfolding agrees_code
agrees-fields x byte k j bit e0 e1 e2 e3 h = rw (← e0, ← e1, ← e2, ← e3) h

module _ (byte k j bit : ℕ) (hb : byte < 256) (hk : k < 8) (hj : j < 8) (hbit : bit < 2) where
  agrees_all : agrees byte k j bit ≡ true
  agrees_all =
      agrees-fields (byte * 128 + k * 16 + j * 2 + bit) byte k j bit (omega arith) (omega arith)
        (omega arith) (omega arith)
        (holds_below_sound agrees_code 32768 agrees_table _ (omega arith))

  pub put_bit-lt : put_bit byte k bit < 256
  unfolding agrees
  put_bit-lt = ground (arith, agrees_all)

  pub bit_of-put_bit : bit_of (put_bit byte k bit) j ≡ (if k == j then bit else bit_of byte j)
  unfolding agrees
  bit_of-put_bit = ground (arith, agrees_all)
