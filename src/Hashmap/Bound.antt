-- ===== src/Hashmap/Bound.antt =====
-- _string_hash of hashmap/hashmap.c stays in an `unsigned long`.
use Prim.Native.Nat.{digits, differ, bit_xor-bitwise}
use libakio.Prelude.{ℕ, zero, suc, ◌*◌, ◌/◌, ◌%◌, ◌^◌, ◌<◌, bit_xor, arith, [], ◌∷◌, length, wrap}
use libakio.Hashmap.{Key, widen, hash_loop, string_hash}

differ-lt : (a b : ℕ) → a < 2 → b < 2 → differ a b < 2
differ-lt zero b ha hb = hb
differ-lt (suc a) zero ha hb = ha
differ-lt (suc zero) (suc zero) ha hb = omega arith
differ-lt (suc zero) (suc (suc b)) ha hb = absurd (omega arith)
differ-lt (suc (suc a)) (suc b) ha hb = absurd (omega arith)

digits-lt : (w n a b : ℕ) → a < 2 ^ w → b < 2 ^ w → digits (λ y. y) differ n a b < 2 ^ w
digits-lt w zero a b ha hb = hb
digits-lt w (suc n) zero b ha hb = hb
digits-lt zero (suc n) (suc a) b ha hb = absurd (omega arith)
digits-lt (suc w) (suc n) (suc a) b ha hb = omega (
  arith,
  digits-lt w n (suc a / 2) (b / 2) (omega arith) (omega arith),
  differ-lt (suc a % 2) (b % 2) (omega arith) (omega arith),
)

bit_xor-lt : (w a b : ℕ) → a < 2 ^ w → b < 2 ^ w → bit_xor a b < 2 ^ w
bit_xor-lt w a b ha hb = rw bit_xor-bitwise (digits-lt w a a b ha hb)

widen-lt : (c : ℕ) → widen c < 2 ^ 64
widen-lt c = ground arith

hash_loop-lt : (x : ℕ) (str : Key) → x < 2 ^ 64 → hash_loop x str < 2 ^ 64
unfolding hash_loop
hash_loop-lt x [] h = h
hash_loop-lt x (c ∷ str) h =
    hash_loop-lt (bit_xor (wrap 64 (1000003 * x)) (widen c)) str
      (bit_xor-lt 64 (wrap 64 (1000003 * x)) (widen c) (omega arith) (widen-lt c))

pub string_hash-lt : (str : Key) → string_hash str < 2 ^ 64
unfolding string_hash
string_hash-lt str =
    bit_xor-lt 64 _ (wrap 64 (length str)) (hash_loop-lt _ str (omega arith)) (omega arith)
