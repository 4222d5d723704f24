-- ===== src/Buffer/Bytes.antt =====
-- The bytes between the two markers of a buffer of kznet/buffer.c.
use libakio.Prelude.{
  ℕ, zero, suc, ◌+◌, ◌-◌, ◌≤◌, ◌≡◌, refl, sym, ap, ◌∙◌, arith, List, [], ◌∷◌, ◌++◌, length, drop,
  length-append, length-drop,
}
use libakio.Buffer.Memory.{
  take, Buffer, buffer_size, header_size, read_size, write_size, slice, store,
}

pub length-take : (n : ℕ) (xs : List ℕ) → n ≤ length xs → length (take n xs) ≡ n
length-take zero xs le = refl
length-take (suc n) [] le = absurd (omega arith)
length-take (suc n) (x ∷ xs) le = ap suc (length-take n xs (omega arith))

pub take-all : (xs : List ℕ) → take (length xs) xs ≡ xs
take-all [] = refl
take-all (x ∷ xs) = ap (◌∷◌ x) (take-all xs)

pub take-drop : (n : ℕ) (xs : List ℕ) → take n xs ++ drop n xs ≡ xs
take-drop zero xs = refl
take-drop (suc n) [] = refl
take-drop (suc n) (x ∷ xs) = ap (◌∷◌ x) (take-drop n xs)

pub append_assoc : (xs ys zs : List ℕ) → (xs ++ ys) ++ zs ≡ xs ++ (ys ++ zs)
append_assoc [] ys zs = refl
append_assoc (x ∷ xs) ys zs = ap (◌∷◌ x) (append_assoc xs ys zs)

pub append_nil : (xs : List ℕ) → xs ++ [] ≡ xs
append_nil [] = refl
append_nil (x ∷ xs) = ap (◌∷◌ x) (append_nil xs)

pub drop-append : (n : ℕ) (xs ys : List ℕ) → n ≤ length xs → drop n (xs ++ ys) ≡ drop n xs ++ ys
drop-append zero xs ys le = refl
drop-append (suc n) [] ys le = absurd (omega arith)
drop-append (suc n) (x ∷ xs) ys le = drop-append n xs ys (omega arith)

-- to leave out more than the first of two lists
pub drop-past :
    (n : ℕ) (xs ys : List ℕ) → length xs ≤ n → drop n (xs ++ ys) ≡ drop (n - length xs) ys
drop-past n [] ys le = ap (λ (k : ℕ). drop k ys) (omega arith)
drop-past zero (x ∷ xs) ys le = absurd (omega arith)
drop-past (suc n) (x ∷ xs) ys le =
    drop-past n xs ys (omega arith)
    ∙ ap (λ (k : ℕ). drop k ys) (let e : n - length xs ≡ suc n - suc (length xs) = omega arith in e)

pub drop_exact : (xs ys : List ℕ) → drop (length xs) (xs ++ ys) ≡ ys
drop_exact [] ys = refl
drop_exact (x ∷ xs) ys = drop_exact xs ys

pub take-append : (n : ℕ) (xs ys : List ℕ) → n ≤ length xs → take n (xs ++ ys) ≡ take n xs
take-append zero xs ys le = refl
take-append (suc n) [] ys le = absurd (omega arith)
take-append (suc n) (x ∷ xs) ys le = ap (◌∷◌ x) (take-append n xs ys (omega arith))

take-both : (xs ys zs : List ℕ) → take (length xs + length ys) (xs ++ ys ++ zs) ≡ xs ++ ys
take-both [] ys zs =
    let e : length {A = ℕ} [] + length ys ≡ length ys = omega arith in
    ap (λ (k : ℕ). take k (ys ++ zs)) e ∙ take-append (length ys) ys zs (omega arith) ∙ take-all ys
take-both (x ∷ xs) ys zs =
    let e : length (x ∷ xs) + length ys ≡ suc (length xs + length ys) = omega arith in
    ap (λ (k : ℕ). take k (x ∷ xs ++ ys ++ zs)) e ∙ ap (◌∷◌ x) (take-both xs ys zs)

pub drop-drop : (m n : ℕ) (xs : List ℕ) → drop (m + n) xs ≡ drop n (drop m xs)
drop-drop zero n xs = ap (λ (k : ℕ). drop k xs) (omega arith)
drop-drop (suc m) zero [] = ap (λ (k : ℕ). drop k []) (let e : suc m + 0 ≡ suc m = omega arith in e)
drop-drop (suc m) (suc n) [] =
    ap (λ (k : ℕ). drop k []) (let e : suc m + suc n ≡ suc (m + suc n) = omega arith in e)
drop-drop (suc m) n (x ∷ xs) =
    ap (λ (k : ℕ). drop k (x ∷ xs)) (let e : suc m + n ≡ suc (m + n) = omega arith in e)
    ∙ drop-drop m n xs

pub length-store :
    (xs : List ℕ) (at : ℕ) (ys : List ℕ)
    → at + length ys ≤ length xs
    → length (store xs at ys) ≡ length xs
length-store xs at ys le =
    length-append (take at xs ++ ys) (drop (at + length ys) xs)
    ∙ omega (
      arith,
      length-append (take at xs) ys,
      length-take at xs (omega arith),
      length-drop (at + length ys) xs,
    )

-- Bytes that are stored behind a slice make it longer.
pub slice-store :
    (xs : List ℕ) (from at : ℕ) (ys : List ℕ)
    → from ≤ at
    → at ≤ length xs
    → slice from (at + length ys) (store xs at ys) ≡ slice from at xs ++ ys
slice-store xs from at ys le inside =
    let size : length (take at xs) ≡ at = length-take at xs inside in
    let whole : take (at + length ys) (store xs at ys) ≡ take at xs ++ ys =
      ap (λ (k : ℕ). take (k + length ys) (store xs at ys)) (sym size)
      ∙ take-both (take at xs) ys (drop (at + length ys) xs) in
    ap (drop from) whole ∙ drop-append from (take at xs) ys (omega (arith, size))

pub length-slice :
    (xs : List ℕ) (from to : ℕ) → to ≤ length xs → length (slice from to xs) ≡ to - from
length-slice xs from to le = length-drop from (take to xs) ∙ omega (arith, length-take to xs le)

-- The two markers stand in the block, in order.
pub record IsBuffer (b : Buffer) : Type 0 where
  pub start_at : b.start ≡ header_size
  pub end_at : b.end ≡ buffer_size
  pub full : length b.bytes ≡ buffer_size
  pub read_from : b.start ≤ b.read_at
  pub in_order : b.read_at ≤ b.last
  pub fits : b.last ≤ b.end

-- what has been written and not been read
abbrev pub content : Buffer → List ℕ
content b = slice b.read_at b.last b.bytes

pub length-content : (b : Buffer) → IsBuffer b → length (content b) ≡ b.last - b.read_at
length-content b good =
    length-slice b.bytes b.read_at b.last (omega (arith, good.full, good.fits, good.end_at))

pub read_size-content : (b : Buffer) → IsBuffer b → read_size b ≡ length (content b)
read_size-content b good =
    let e : read_size b ≡ b.last - b.read_at =
      omega (arith, good.in_order, good.fits, good.end_at) in
    e ∙ sym (length-content b good)

pub write_size-free : (b : Buffer) → IsBuffer b → write_size b ≡ buffer_size - b.last
write_size-free b good = omega (arith, good.in_order, good.fits, good.end_at)
