-- ===== src/Prelude/Runs.antt =====
-- Runs of C code that may fault, and the memory blocks that they read and write.
use Prim.Native.Nat.{ℕ, zero, suc, ◌<◌, ◌≤◌}
use mathlib.Core.Path.{◌≡◌, refl, sym, ap, ◌∙◌}
use mathlib.Core.Logic.{◌≢◌, ◌⊎◌, inl, inr}
use mathlib.Core.List.{List, [], ◌∷◌}
use native.Mathlib.Omega.{arith}
use libakio.Prelude.Lists.{length, get_or, set, replicate}

-- `fault` is undefined behaviour: an access outside a block, through NULL, or a division by zero.
pub data Run {ℓ} (A : Type ℓ) : Type ℓ where
  ok : A → Run A
  fault : Run A

infixl 5 ◌>>=◌
abbrev pub ◌>>=◌ {ℓ κ} : {A : Type ℓ} {B : Type κ} → Run A → (A → Run B) → Run B
fault >>= next = fault
ok result >>= next = next result

-- The run ends without a fault, in a value that satisfies `Post`.
abbrev pub Returns {ℓ κ} : {A : Type ℓ} → Run A → (A → Type κ) → Type (ℓ ⊔ κ)
Returns {A} run Post = (result : A) × (run ≡ ok result) × Post result

module _ {ℓ} {A : Type ℓ} where
  -- `xs[i]`
  unfoldable pub read : List A → ℕ → Run A
  read [] i = fault
  read (x ∷ xs) zero = ok x
  read (x ∷ xs) (suc i) = read xs i

  -- `xs[i] = v`
  unfoldable pub write : List A → ℕ → A → Run (List A)
  write [] i v = fault
  write (x ∷ xs) zero v = ok (v ∷ xs)
  write (x ∷ xs) (suc i) v = write xs i v >>= λ ys. ok (x ∷ ys)

  pub read-in : (xs : List A) (i : ℕ) (d : A) → i < length xs → read xs i ≡ ok (get_or xs i d)
  unfolding read
  read-in [] i d h = elim h [ ]
  read-in (x ∷ xs) zero d h = refl
  read-in (x ∷ xs) (suc i) d h = read-in xs i d (omega arith)

  pub read-out : (xs : List A) (i : ℕ) → length xs ≤ i → read xs i ≡ fault
  unfolding read
  read-out [] i h = refl
  read-out (x ∷ xs) zero h = elim h [ ]
  read-out (x ∷ xs) (suc i) h = read-out xs i (omega arith)

  pub write-in : (xs : List A) (i : ℕ) (v : A) → i < length xs → write xs i v ≡ ok (set xs i v)
  unfolding write
  write-in [] i v h = elim h [ ]
  write-in (x ∷ xs) zero v h = refl
  write-in (x ∷ xs) (suc i) v h = rw (write-in xs i v (omega arith))

-- A read that succeeds, after a write to the same index or to another one.
module _ {ℓ} {A : Type ℓ} where
  pub read-set_self :
      (xs : List A) (i : ℕ) (v x : A) → read xs i ≡ ok x → read (set xs i v) i ≡ ok v
  unfolding read
  read-set_self [] i v x e = absurd (cc e)
  read-set_self (y ∷ xs) zero v x e = refl
  read-set_self (y ∷ xs) (suc i) v x e = read-set_self xs i v x e

  pub read-set_ne : (xs : List A) (i j : ℕ) (v : A) → i ≢ j → read (set xs i v) j ≡ read xs j
  unfolding read
  read-set_ne [] i j v ne = refl
  read-set_ne (y ∷ xs) zero zero v ne = absurd (ne refl)
  read-set_ne (y ∷ xs) zero (suc j) v ne = refl
  read-set_ne (y ∷ xs) (suc i) zero v ne = refl
  read-set_ne (y ∷ xs) (suc i) (suc j) v ne = read-set_ne xs i j v (λ e. ne (ap suc e))

  pub Run-cases : (run : Run A) → (run ≡ fault) ⊎ ((x : A) × (run ≡ ok x))
  Run-cases fault = inl refl
  Run-cases (ok x) = inr (x, refl)

  pub get_or-read : (xs : List A) (i : ℕ) (x d : A) → read xs i ≡ ok x → get_or xs i d ≡ x
  unfolding read
  get_or-read [] i x d e = absurd (cc e)
  get_or-read (y ∷ xs) zero x d e = ap (λ (r : Run A). elim r [ ok z ↦ z | fault ↦ x ]) e
  get_or-read (y ∷ xs) (suc i) x d e = get_or-read xs i x d e

  ok_inj : {x y : A} → ok x ≡ ok y → x ≡ y
  ok_inj {x} e = ap (λ (r : Run A). elim r [ ok z ↦ z | fault ↦ x ]) e

  pub read_unique :
      (xs : List A) (i j : ℕ) (x y : A) → i ≡ j → read xs i ≡ ok x → read xs j ≡ ok y → x ≡ y
  read_unique xs i j x y e rx ry = ok_inj (sym rx ∙ ap (read xs) e ∙ ry)

-- `memset(xs, c, n)`
unfoldable pub memset : List ℕ → ℕ → ℕ → Run (List ℕ)
memset xs c zero = ok xs
memset [] c (suc n) = fault
memset (x ∷ xs) c (suc n) = memset xs c n >>= λ ys. ok (c ∷ ys)

pub memset-all : (xs : List ℕ) (c n : ℕ) → length xs ≡ n → memset xs c n ≡ ok (replicate n c)
unfolding memset
memset-all [] c zero h = refl
memset-all [] c (suc n) h = absurd (omega arith)
memset-all (x ∷ xs) c zero h = absurd (omega arith)
memset-all (x ∷ xs) c (suc n) h = rw (memset-all xs c n (omega arith))
