-- ===== src/Skiplist/Revise.antt =====
-- The list of nodes of a skiplist with one node more, or with another value: what stays true of it.
use Prim.Native.Nat.{Ordering}
use libakio.Prelude.{
  ℕ, suc, ◌<◌, ◌≤◌, ◌≡◌, inl, inr, refl, ap, arith, true, false, ◌||◌, some, List, [], ◌∷◌, ◌++◌,
  length, ◌==◌, Bool-cases, if◌then◌else◌,
}
use libakio.Skiplist.{is_eq}
use libakio.Skiplist.Memory.{Ptr}
use libakio.Skiplist.Items.{Item, has, Distinct}
use libakio.Skiplist.Order.{IsOrder, Sorted, Above, Below, lookup}
use libakio.Skiplist.Valid.{Heights}

module _ {K : Type 0} (it : Item K) (high : List (Item K)) where
  pub has-insert :
      (a : Ptr) (low : List (Item K))
      → has a (low ++ it ∷ high) ≡ ((a == it.addr) || has a (low ++ high))
  has-insert a [] = refl
  has-insert a (x ∷ xs) = ground (arith, has-insert a xs)

  pub Distinct-insert :
      (low : List (Item K))
      → has it.addr (low ++ high) ≡ false
      → Distinct (low ++ high)
      → Distinct (low ++ it ∷ high)
  Distinct-insert [] out distinct = (out, distinct)
  Distinct-insert (x ∷ xs) out (x_out, distinct) =
      (ground (arith, has-insert x.addr xs), Distinct-insert xs (ground arith) distinct)

  pub Distinct-remove : (low : List (Item K)) → Distinct (low ++ it ∷ high) → Distinct (low ++ high)
  Distinct-remove [] (out, distinct) = distinct
  Distinct-remove (x ∷ xs) (x_out, distinct) =
      (ground (arith, has-insert x.addr xs), Distinct-remove xs distinct)

  -- The node that is left out stands nowhere else.
  pub Distinct-out :
      (low : List (Item K)) → Distinct (low ++ it ∷ high) → has it.addr (low ++ high) ≡ false
  Distinct-out [] (out, distinct) = out
  Distinct-out (x ∷ xs) (x_out, distinct) =
      ground (arith, Distinct-out xs distinct, has-insert x.addr xs)

  pub Heights-insert :
      (level : ℕ) (low : List (Item K))
      → 0 < it.height
      → it.height ≤ level
      → Heights level (low ++ high)
      → Heights level (low ++ it ∷ high)
  Heights-insert level [] pos le heights = ((pos, le), heights)
  Heights-insert level (x ∷ xs) pos le (here, heights) =
      (here, Heights-insert level xs pos le heights)

  pub Heights-remove :
      (level : ℕ) (low : List (Item K))
      → Heights level (low ++ it ∷ high)
      → Heights level (low ++ high)
  Heights-remove level [] (here, heights) = heights
  Heights-remove level (x ∷ xs) (here, heights) = (here, Heights-remove level xs heights)

  pub length-insert : (low : List (Item K)) → length (low ++ it ∷ high) ≡ suc (length (low ++ high))
  length-insert [] = refl
  length-insert (x ∷ xs) = ap suc (length-insert xs)

  module _ (compare : K → K → Ordering) where
    Above-insert :
        (key : K) (low : List (Item K))
        → compare key it.key ≡ Ordering.lt
        → Above compare key (low ++ high)
        → Above compare key (low ++ it ∷ high)
    Above-insert key [] lt above = (lt, above)
    Above-insert key (x ∷ xs) lt (here, above) = (here, Above-insert key xs lt above)

    Above-remove :
        (key : K) (low : List (Item K))
        → Above compare key (low ++ it ∷ high)
        → Above compare key (low ++ high)
    Above-remove key [] above = above.1
    Above-remove key (x ∷ xs) (here, above) = (here, Above-remove key xs above)

    pub Sorted-insert :
        (low : List (Item K))
        → Below compare it.key low
        → Above compare it.key high
        → Sorted compare (low ++ high)
        → Sorted compare (low ++ it ∷ high)
    Sorted-insert [] below above sorted = (above, sorted)
    Sorted-insert (x ∷ xs) (here, below) above (x_above, sorted) =
        (Above-insert x.key xs here x_above, Sorted-insert xs below above sorted)

    pub Sorted-remove :
        (low : List (Item K)) → Sorted compare (low ++ it ∷ high) → Sorted compare (low ++ high)
    Sorted-remove [] sorted = sorted.1
    Sorted-remove (x ∷ xs) (x_above, sorted) =
        (Above-remove x.key xs x_above, Sorted-remove xs sorted)

    -- Look-up with one node more: that node for its key, and as before for every other.
    pub lookup-insert :
        IsOrder compare
        → (k : K) (low : List (Item K)) → Below compare it.key low
        → lookup compare k (low ++ it ∷ high)
          ≡ (if is_eq (compare it.key k) then some it.value else lookup compare k (low ++ high))
    lookup-insert order k [] below = refl
    lookup-insert order k (x ∷ xs) (here, below) = elim (Bool-cases (is_eq (compare x.key k))) [
      | inr other ↦ rw other (lookup-insert order k xs below)
      | inl hit ↦
          let eq : x.key ≡ k = order.same x.key k (is_eq_sound (compare x.key k) hit) in
          let apart : compare it.key k ≡ Ordering.gt =
            rw (← eq) (order.flip_back x.key it.key here) in
          rw (hit, apart) refl
    ]
      where
        is_eq_sound : (o : Ordering) → is_eq o ≡ true → o ≡ Ordering.eq
        is_eq_sound Ordering.lt e = absurd (cc e)
        is_eq_sound Ordering.eq e = refl
        is_eq_sound Ordering.gt e = absurd (cc e)

module _ {K : Type 0} where
  pub Heights-raise :
      (level level' : ℕ) (xs : List (Item K))
      → level ≤ level'
      → Heights level xs
      → Heights level' xs
  Heights-raise level level' [] le heights = tt
  Heights-raise level level' (x ∷ xs) le ((pos, here), heights) =
      ((pos, omega arith), Heights-raise level level' xs le heights)
