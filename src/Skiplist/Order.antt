-- ===== src/Skiplist/Order.antt =====
-- Keys in order, as skiplist/skiplist.c compares them: the part of a list before a key, and look-up.
use Prim.Native.Nat.{Ordering}
use libakio.Prelude.{
  ℕ, ◌≡◌, ◌⊎◌, inl, inr, refl, sym, ap, ◌∙◌, true, false, Option, none, some, List, [], ◌∷◌, ◌++◌,
  Bool-cases, if◌then◌else◌,
}
use libakio.Skiplist.{is_lt, is_eq}
use libakio.Skiplist.Items.{Item}

-- What the code relies on: `compare` is a total order.
pub record IsOrder {K : Type 0} (compare : K → K → Ordering) : Type 0 where
  pub self : (a : K) → compare a a ≡ Ordering.eq
  pub same : (a b : K) → compare a b ≡ Ordering.eq → a ≡ b
  pub trans :
      (a b c : K)
      → compare a b ≡ Ordering.lt
      → compare b c ≡ Ordering.lt
      → compare a c ≡ Ordering.lt
  pub flip : (a b : K) → compare a b ≡ Ordering.gt → compare b a ≡ Ordering.lt
  pub flip_back : (a b : K) → compare a b ≡ Ordering.lt → compare b a ≡ Ordering.gt

module _ {K : Type 0} (compare : K → K → Ordering) where
  abbrev pub Above : K → List (Item K) → Type 0
  Above key [] = Unit {0}
  Above key (x ∷ xs) = (compare key x.key ≡ Ordering.lt) × Above key xs

  abbrev pub Sorted : List (Item K) → Type 0
  Sorted [] = Unit {0}
  Sorted (x ∷ xs) = Above x.key xs × Sorted xs

  abbrev pub Below : K → List (Item K) → Type 0
  Below key [] = Unit {0}
  Below key (x ∷ xs) = (compare x.key key ≡ Ordering.lt) × Below key xs

  abbrev pub before : K → List (Item K) → List (Item K)
  before key [] = []
  before key (x ∷ xs) = if is_lt (compare x.key key) then x ∷ before key xs else []

  abbrev pub from : K → List (Item K) → List (Item K)
  from key [] = []
  from key (x ∷ xs) = if is_lt (compare x.key key) then from key xs else x ∷ xs

  is_lt_sound : (o : Ordering) → is_lt o ≡ true → o ≡ Ordering.lt
  is_lt_sound Ordering.lt e = refl
  is_lt_sound Ordering.eq e = absurd (cc e)
  is_lt_sound Ordering.gt e = absurd (cc e)

  pub before-from : (key : K) (xs : List (Item K)) → before key xs ++ from key xs ≡ xs
  before-from key [] = refl
  before-from key (x ∷ xs) = elim (Bool-cases (is_lt (compare x.key key))) [
    | inl e ↦ rw e (ap (◌∷◌ x) (before-from key xs))
    | inr e ↦ rw e refl
  ]

  pub before-Below : (key : K) (xs : List (Item K)) → Below key (before key xs)
  before-Below key [] = tt
  before-Below key (x ∷ xs) = elim (Bool-cases (is_lt (compare x.key key))) [
    | inl e ↦ rw e (is_lt_sound _ e, before-Below key xs)
    | inr e ↦ rw e tt
  ]

  -- The rest starts with the key, or lies above it.
  abbrev pub Starts : K → List (Item K) → Type 0
  Starts key [] = Unit {0}
  Starts key (x ∷ xs) = is_lt (compare x.key key) ≡ false

  pub from-Starts : (key : K) (xs : List (Item K)) → Starts key (from key xs)
  from-Starts key [] = tt
  from-Starts key (x ∷ xs) = elim (Bool-cases (is_lt (compare x.key key))) [
    | inl e ↦ rw e (from-Starts key xs)
    | inr e ↦ rw e e
  ]

  abbrev pub lookup : K → List (Item K) → Option ℕ
  lookup key [] = none
  lookup key (x ∷ xs) = if is_eq (compare x.key key) then some x.value else lookup key xs

  pub lookup-append-Below :
      (key : K) (xs ys : List (Item K)) → Below key xs → lookup key (xs ++ ys) ≡ lookup key ys
  lookup-append-Below key [] ys below = refl
  lookup-append-Below key (x ∷ xs) ys (here, below) = rw here (lookup-append-Below key xs ys below)

  pub Sorted-append : (xs ys : List (Item K)) → Sorted (xs ++ ys) → Sorted xs × Sorted ys
  Sorted-append [] ys sorted = (tt, sorted)
  Sorted-append (x ∷ xs) ys (above, sorted) =
      let (left, right) = Sorted-append xs ys sorted in
      ((Above-left x.key xs ys above, left), right)
    where
      Above-left : (key : K) (xs ys : List (Item K)) → Above key (xs ++ ys) → Above key xs
      Above-left key [] ys above = tt
      Above-left key (x ∷ xs) ys (here, above) = (here, Above-left key xs ys above)

  module _ (order : IsOrder compare) where
    Above-trans :
        (a b : K) (xs : List (Item K)) → compare a b ≡ Ordering.lt → Above b xs → Above a xs
    Above-trans a b [] lt above = tt
    Above-trans a b (x ∷ xs) lt (here, above) =
        (order.trans a b x.key lt here, Above-trans a b xs lt above)

    -- A key that is not below any of the nodes is looked up in vain.
    pub lookup-Above : (key : K) (xs : List (Item K)) → Above key xs → lookup key xs ≡ none
    lookup-Above key [] above = refl
    lookup-Above key (x ∷ xs) (here, above) =
        rw (order.flip_back key x.key here) (lookup-Above key xs above)

    -- the first node, or what lies above the key
    pub from-Above :
        (key : K) (x : Item K) (xs : List (Item K))
        → Sorted (x ∷ xs)
        → is_lt (compare x.key key) ≡ false
        → ((compare x.key key ≡ Ordering.eq) × Above key xs)
          ⊎ ((compare x.key key ≡ Ordering.gt) × Above key (x ∷ xs))
    from-Above key x xs (above, sorted) start = by_order (compare x.key key) refl
      where
        by_order :
            (o : Ordering)
            → compare x.key key ≡ o
            → ((compare x.key key ≡ Ordering.eq) × Above key xs)
              ⊎ ((compare x.key key ≡ Ordering.gt) × Above key (x ∷ xs))
        by_order Ordering.lt e = absurd (cc (start, ap is_lt e))
        by_order Ordering.eq e =
            inl (e, let eq : x.key ≡ key = order.same x.key key e in rw (← eq) above)
        by_order Ordering.gt e =
            let lt : compare key x.key ≡ Ordering.lt = order.flip x.key key e in
            inr (e, (lt, Above-trans key x.key xs lt above))

    -- The node where the search stops decides.
    abbrev pub first_value : K → List (Item K) → Option ℕ
    first_value key [] = none
    first_value key (x ∷ xs) = if is_eq (compare x.key key) then some x.value else none

    pub lookup-from :
        (key : K) (xs : List (Item K))
        → Sorted xs
        → Starts key xs
        → lookup key xs ≡ first_value key xs
    lookup-from key [] sorted start = refl
    lookup-from key (x ∷ xs) sorted start = elim (from-Above key x xs sorted start) [
      | inl (eq, above) ↦ rw eq refl
      | inr (gt, above) ↦ rw gt (lookup-Above key xs above.1)
    ]

    pub lookup-first_value :
        (key : K) (xs : List (Item K)) → Sorted xs → lookup key xs ≡ first_value key (from key xs)
    lookup-first_value key xs sorted =
        ap (lookup key) (sym (before-from key xs))
        ∙ lookup-append-Below key (before key xs) (from key xs) (before-Below key xs)
        ∙ lookup-from key (from key xs)
            (Sorted-append (before key xs) (from key xs) (rw (before-from key xs) sorted)).1
            (from-Starts key xs)
