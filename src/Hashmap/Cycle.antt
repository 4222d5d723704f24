-- ===== src/Hashmap/Cycle.antt =====
-- The recurrence behind the probe sequence of hashmap/hashmap.c: x ↦ 5 x + 1 runs through all
-- residues of a power of two.
use native.Mathlib.Nat.{zero-add, mul-add-mod_self_left, mod-eq_of_lt, div-add-mod, mod-lt}
use libakio.Prelude.{
  ℕ, zero, suc, ◌+◌, ◌*◌, ◌/◌, ◌%◌, ◌^◌, ◌<◌, ◌≤◌, ◌≡◌, ◌⊎◌, inl, inr, sym, ap, ◌∙◌, arith,
  Bool-cases, ==_iff, ◌==◌,
}

-- n steps of x ↦ 5 x + 1
unfoldable pub walk : ℕ → ℕ → ℕ
walk zero x = x
walk (suc n) x = 5 * walk n x + 1

-- The steps from 0 determine those from anywhere.
walk-eq : (n x : ℕ) → walk n x ≡ x + walk n 0 * (4 * x + 1)
unfolding walk
walk-eq zero x = omega arith
walk-eq (suc n) x = omega (arith, walk-eq n x)

pub walk-add : (m n x : ℕ) → walk (m + n) x ≡ walk m (walk n x)
unfolding walk
walk-add zero n x = rw zero-add
walk-add (suc m) n x =
    let e : suc m + n ≡ suc (m + n) = omega arith in rw e (omega (arith, walk-add m n x))

double_odd :
    (m d s : ℕ) → s ≡ m * (2 * d + 1) → s + s * (4 * s + 1) ≡ 2 * m * (2 * (2 * d * s + d + s) + 1)
double_odd m d s e = omega (arith, ap (λ (t : ℕ). t * s) e)

-- 2^k steps from 0 lead to an odd multiple of 2^k.
walk-pow : (k : ℕ) → (d : ℕ) × (walk (2 ^ k) 0 ≡ 2 ^ k * (2 * d + 1))
unfolding walk
walk-pow zero = (0, omega arith)
walk-pow (suc k) =
    let (d, e) = walk-pow k in
    let s : ℕ = walk (2 ^ k) 0 in
    let twice : 2 ^ suc k ≡ 2 ^ k + 2 ^ k = omega arith in
    (
      2 * d * s + d + s,
      rw twice
          (walk-add (2 ^ k) (2 ^ k) 0 ∙ walk-eq (2 ^ k) s ∙ double_odd (2 ^ k) d s e ∙ omega arith),
    )

mul-le_of_bit : (m b : ℕ) → b < 2 → m * b ≤ m
mul-le_of_bit m zero h = omega arith
mul-le_of_bit m (suc zero) h = omega arith
mul-le_of_bit m (suc (suc b)) h = absurd (omega arith)

-- The residue modulo 2 m, from the parts modulo m.
residue : (m a r : ℕ) → r < m → (m * a + r) % (2 * m) ≡ m * (a % 2) + r
residue m a r h =
    let e : m * a + r ≡ 2 * m * (a / 2) + (m * (a % 2) + r) =
      omega (arith, ap (λ (t : ℕ). m * t) (div-add-mod a 2)) in
    rw (e, mul-add-mod_self_left (2 * m) (a / 2) (m * (a % 2) + r))
      (mod-eq_of_lt (omega (arith, mul-le_of_bit m (a % 2) (omega arith))))

-- An odd multiple of m is the difference between the two residues modulo 2 m over one modulo m.
flip :
    (m y j d : ℕ)
    → 0 < m
    → y % m ≡ j % m
    → (y % (2 * m) ≡ j % (2 * m)) ⊎ ((y + m * (2 * d + 1)) % (2 * m) ≡ j % (2 * m))
flip m y j d pos e =
    let a : ℕ = y / m in
    let b : ℕ = j / m in
    let r : ℕ = y % m in
    let small : r < m = mod-lt y pos in
    let of_y : y % (2 * m) ≡ m * (a % 2) + r =
      ap (λ (t : ℕ). t % (2 * m)) (sym (div-add-mod y m)) ∙ residue m a r small in
    let of_j : j % (2 * m) ≡ m * (b % 2) + r =
      ap (λ (t : ℕ). t % (2 * m)) (omega (arith, div-add-mod j m)) ∙ residue m b r small in
    let of_sum : (y + m * (2 * d + 1)) % (2 * m) ≡ m * ((a + 2 * d + 1) % 2) + r =
      ap (λ (t : ℕ). t % (2 * m)) (omega (arith, div-add-mod y m))
      ∙ residue m (a + 2 * d + 1) r small in
    elim (Bool-cases (a % 2 == b % 2)) [
      | inl t ↦
          let same : a % 2 ≡ b % 2 = (==_iff (a % 2) (b % 2)).0 t in inl (of_y ∙ rw same (sym of_j))
      | inr t ↦
          let other : (a + 2 * d + 1) % 2 ≡ b % 2 = ground arith in
          inr (of_sum ∙ rw other (sym of_j))
    ]

-- Within 2^k steps the walk meets every residue modulo 2^k.
pub walk_meets : (k x j : ℕ) → (n : ℕ) × (n < 2 ^ k) × (walk n x % 2 ^ k ≡ j % 2 ^ k)
walk_meets zero x j = (0, omega arith, omega arith)
walk_meets (suc k) x j =
    let m : ℕ = 2 ^ k in
    let double : 2 ^ suc k ≡ 2 * m = omega arith in
    let (n, lt, meets) = walk_meets k x j in
    let (d, turn) = walk-pow k in
    let y : ℕ = walk n x in
    let far : walk (m + n) x ≡ y + m * (2 * (d * (4 * y + 1) + 2 * y) + 1) =
      walk-add m n x ∙ walk-eq m y ∙ rw turn (omega arith) in
    rw double (elim (flip m y j (d * (4 * y + 1) + 2 * y) (omega arith) meets) [
      | inl here ↦ (n, omega arith, here)
      | inr there ↦ (m + n, omega arith, rw far there)
    ])
