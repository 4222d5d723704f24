-- ===== src/Hashmap/Path.antt =====
-- The probe sequence of hashmap/hashmap.c on a table whose size is a power of two.
use native.Mathlib.Nat.{mod-eq_of_lt, mul-add-mod_self_left, div-add-mod, mod-lt, zero-mod, mod-one}
use Prim.Native.Nat.{min, digits, bit_and-bitwise}
use libakio.Prelude.{ℕ, zero, suc, ◌+◌, ◌-◌, ◌*◌, ◌/◌, ◌%◌, ◌^◌, ◌<◌, ◌≤◌, ◌≡◌, sym, ap, ◌∙◌, arith}
use libakio.Hashmap.{mask}

double_mod : (x m : ℕ) → 0 < m → x % (2 * m) ≡ 2 * (x / 2 % m) + x % 2
double_mod x m pos =
    let q : ℕ = x / 2 / m in
    let r : ℕ = x / 2 % m in
    let small : r < m = mod-lt (x / 2) pos in
    let parts : x ≡ 2 * m * q + (2 * r + x % 2) = omega (arith, div-add-mod (x / 2) m) in
    ap (λ (t : ℕ). t % (2 * m)) parts
    ∙ mul-add-mod_self_left (2 * m) q (2 * r + x % 2)
    ∙ mod-eq_of_lt (omega arith)

pub pow_pos : (k : ℕ) → 0 < 2 ^ k
pow_pos zero = omega arith
pow_pos (suc k) = omega (arith, pow_pos k)

mask_digits : (n k a : ℕ) → a ≤ n → digits (λ y. 0) min n a (2 ^ k - 1) ≡ a % 2 ^ k
mask_digits zero k zero h = sym (zero-mod (2 ^ k))
mask_digits (suc n) k zero h = sym (zero-mod (2 ^ k))
mask_digits zero k (suc a) h = absurd (omega arith)
mask_digits (suc n) zero (suc a) h =
    omega
      (arith, mask_digits n zero (suc a / 2) (omega arith), mod-one (suc a), mod-one (suc a / 2))
mask_digits (suc n) (suc k) (suc a) h =
    let pos : 0 < 2 ^ k = pow_pos k in
    let twice : 2 ^ suc k ≡ 2 * 2 ^ k = omega arith in
    let half : (2 ^ suc k - 1) / 2 ≡ 2 ^ k - 1 = rw twice (omega arith) in
    let odd : (2 ^ suc k - 1) % 2 ≡ 1 = rw twice (omega arith) in
    rw (half, odd, mask_digits n k (suc a / 2) (omega arith))
      (rw (twice, double_mod (suc a) (2 ^ k) pos) (omega arith))

pub mask_mod : (k x : ℕ) → mask (2 ^ k) x ≡ x % 2 ^ k
mask_mod k x = rw bit_and-bitwise (mask_digits x k x (omega arith))
