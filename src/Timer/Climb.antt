-- ===== src/Timer/Climb.antt =====
-- The array of _shift_up in kznet/timer.c, apart from the memory of timers: `when` gives the time of
-- a timer, and the heap order is that no timer is due before its parent.
use libakio.Prelude.{
  ℕ, zero, suc, ◌<◌, ◌≤◌, ◌≡◌, ◌≢◌, inl, inr, refl, sym, ap, ◌∙◌, arith, List, length, get_or, set,
  length-set, get_or-set_self, get_or-set_ne, ltb, ◌==◌, ==_iff, Bool-cases, if◌then◌else◌, ltb→lt,
  ltb-false→le,
}
use libakio.Timer.{parent}
use libakio.Timer.Memory.{Ptr, null}

abbrev pub at : List Ptr → ℕ → Ptr
at tes i = get_or tes i null

-- The first `n` timers are in heap order.
abbrev pub IsHeap : (Ptr → ℕ) → ℕ → List Ptr → Type 0
IsHeap when n tes = (i : ℕ) → 0 < i → i < n → when (at tes (parent i)) ≤ when (at tes i)

unfoldable pub climb : (Ptr → ℕ) → ℕ → List Ptr → ℕ → Ptr → List Ptr
climb when zero tes h t = tes
climb when (suc rounds) tes zero t = set tes zero t
climb when (suc rounds) tes (suc h) t =
    let above : Ptr = at tes (parent (suc h)) in
    let rest = climb when rounds (set tes (suc h) above) (parent (suc h)) t in
    if ltb (when t) (when above) then rest else set tes (suc h) t

module _ (when : Ptr → ℕ) (n : ℕ) (t : Ptr) where
  -- The order with a hole at `h` that waits for `t`.
  pub record IsOpen (tes : List Ptr) (h : ℕ) : Type 0 where
    pub away :
        (i : ℕ) → 0 < i → i < n → i ≢ h → parent i ≢ h → when (at tes (parent i)) ≤ when (at tes i)
    pub below : (i : ℕ) → 0 < i → i < n → parent i ≡ h → when t ≤ when (at tes i)
    pub across :
        (i : ℕ) → 0 < i → i < n → parent i ≡ h → 0 < h → when (at tes (parent h)) ≤ when (at tes i)

  pub at-set_self : (tes : List Ptr) (i : ℕ) (p : Ptr) → i < length tes → at (set tes i p) i ≡ p
  at-set_self tes i p inside = get_or-set_self tes i p null inside

  pub at-set_ne : (tes : List Ptr) (i j : ℕ) (p : Ptr) → i ≢ j → at (set tes i p) j ≡ at tes j
  at-set_ne tes i j p ne = get_or-set_ne tes i j p null ne

  -- Filling the hole where the parent is not due later.
  pub filled :
      (tes : List Ptr) (h : ℕ)
      → h < length tes
      → IsOpen tes h
      → (0 < h → when (at tes (parent h)) ≤ when t)
      → IsHeap when n (set tes h t)
  filled tes h inside gap fits i pos lt = elim (Bool-cases (h == i)) [
    | inl e ↦
        let eq : h ≡ i = (==_iff h i).0 e in
        rw (← eq, at-set_self tes h t inside, at-set_ne tes h (parent h) t (λ e. omega arith))
          (fits (omega arith))
    | inr ne ↦ elim (Bool-cases (h == parent i)) [
      | inl e ↦
          let eq : h ≡ parent i = (==_iff h (parent i)).0 e in
          rw (← eq, at-set_self tes h t inside, at-set_ne tes h i t (ground arith))
            (gap.below i pos lt (sym eq))
      | inr apart ↦
          rw (at-set_ne tes h i t (ground arith), at-set_ne tes h (parent i) t (ground arith))
            (gap.away i pos lt (ground arith) (ground arith))
    ]
  ]

  -- After the move, the children of the parent are not due before the parent was.
  sibling :
      (tes : List Ptr) (h : ℕ)
      → 0 < h
      → h < length tes
      → IsOpen tes h
      → (i : ℕ) → 0 < i
      → i < n
      → parent i ≡ parent h
      → when (at tes (parent h)) ≤ when (at (set tes h (at tes (parent h))) i)
  sibling tes h pos inside gap i i_pos lt eq = elim (Bool-cases (h == i)) [
    | inl e ↦
        let same : h ≡ i = (==_iff h i).0 e in
        rw (← same, at-set_self tes h (at tes (parent h)) inside) (omega arith)
    | inr ne ↦
        rw (at-set_ne tes h i (at tes (parent h)) (ground arith), ← eq)
          (gap.away i i_pos lt (ground arith) (λ e. omega (arith, e, eq)))
  ]

  -- Moving the parent into the hole, when it is due after `t`.
  moved :
      (tes : List Ptr) (h : ℕ)
      → 0 < h
      → h < length tes
      → h < n
      → IsOpen tes h
      → when t < when (at tes (parent h))
      → IsOpen (set tes h (at tes (parent h))) (parent h)
  moved tes h pos inside used gap later = record {
    away = λ i i_pos lt ne pne. elim (Bool-cases (h == parent i)) [
      | inl e ↦
          let eq : h ≡ parent i = (==_iff h (parent i)).0 e in
          rw
            (
              ← eq,
              at-set_self tes h (at tes (parent h)) inside,
              at-set_ne tes h i (at tes (parent h)) (ground arith),
            )
            (gap.across i i_pos lt (sym eq) pos)
      | inr apart ↦
          let other : h ≢ i = λ eq. pne (ap parent (sym eq)) in
          rw
            (
              at-set_ne tes h i (at tes (parent h)) other,
              at-set_ne tes h (parent i) (at tes (parent h)) (ground arith),
            )
            (gap.away i i_pos lt (λ e. other (sym e)) (ground arith))
    ];
    below = λ i i_pos lt eq. omega (arith, sibling tes h pos inside gap i i_pos lt eq, later);
    across = λ i i_pos lt eq p_pos.
        rw (at-set_ne tes h (parent (parent h)) (at tes (parent h)) (λ e. omega (arith, e))) (
          omega (
            arith,
            sibling tes h pos inside gap i i_pos lt eq,
            gap.away (parent h) p_pos (omega arith) (λ e. omega (arith, e)) (λ e. omega (arith, e)),
          ));
  }

  pub climb-IsHeap :
      (rounds : ℕ) (tes : List Ptr) (h : ℕ)
      → h < rounds
      → h < length tes
      → h < n
      → IsOpen tes h
      → IsHeap when n (climb when rounds tes h t)
  unfolding climb
  climb-IsHeap zero tes h enough inside used gap = absurd (omega arith)
  climb-IsHeap (suc rounds) tes zero enough inside used gap =
      filled tes zero inside gap (λ e. absurd (omega (arith, e)))
  climb-IsHeap (suc rounds) tes (suc h) enough inside used gap =
      let above : Ptr = at tes (parent (suc h)) in
      elim (Bool-cases (ltb (when t) (when above))) [
        | inl later ↦ rw later (
            climb-IsHeap rounds (set tes (suc h) above) (parent (suc h)) (omega arith)
              (rw (length-set tes (suc h) above) (omega arith)) (omega arith)
              (moved tes (suc h) (omega arith) inside used gap (ltb→lt _ _ later)))
        | inr fits ↦ rw fits (filled tes (suc h) inside gap (λ pos. ltb-false→le _ _ fits))
      ]

  -- A timer that stands in the array outside the hole still does, and `t` does.
  pub climb-keeps :
      (rounds : ℕ) (tes : List Ptr) (h i : ℕ)
      → h < rounds
      → h < length tes
      → h < n
      → i < n
      → i ≢ h
      → (j : ℕ) × (j < n) × (at (climb when rounds tes h t) j ≡ at tes i)
  unfolding climb
  climb-keeps zero tes h i enough inside used lt ne = absurd (omega arith)
  climb-keeps (suc rounds) tes zero i enough inside used lt ne =
      (i, lt, at-set_ne tes zero i t (λ e. ne (sym e)))
  climb-keeps (suc rounds) tes (suc h) i enough inside used lt ne =
      let above : Ptr = at tes (parent (suc h)) in
      let moved_tes : List Ptr = set tes (suc h) above in
      let room : parent (suc h) < length moved_tes =
        rw (length-set tes (suc h) above) (omega arith) in
      elim (Bool-cases (ltb (when t) (when above))) [
        | inr fits ↦ rw fits (i, lt, at-set_ne tes (suc h) i t (λ e. ne (sym e)))
        | inl later ↦ elim (Bool-cases (i == parent (suc h))) [
          | inl e ↦
              let (j, below, found) =
                climb-keeps rounds moved_tes (parent (suc h)) (suc h) (omega arith) room
                  (omega arith) used (λ e. omega (arith, e)) in
              rw later (
                j,
                below,
                found
                    ∙ at-set_self tes (suc h) above inside
                    ∙ ap (at tes) (sym ((==_iff i (parent (suc h))).0 e)),
              )
          | inr other ↦
              let (j, below, found) =
                climb-keeps rounds moved_tes (parent (suc h)) i (omega arith) room (omega arith) lt
                  (λ e. ground arith) in
              rw later (j, below, found ∙ at-set_ne tes (suc h) i above (λ e. ne (sym e)))
        ]
      ]

  pub climb-has :
      (rounds : ℕ) (tes : List Ptr) (h : ℕ)
      → h < rounds
      → h < length tes
      → h < n
      → (j : ℕ) × (j < n) × (at (climb when rounds tes h t) j ≡ t)
  unfolding climb
  climb-has zero tes h enough inside used = absurd (omega arith)
  climb-has (suc rounds) tes zero enough inside used = (zero, used, at-set_self tes zero t inside)
  climb-has (suc rounds) tes (suc h) enough inside used =
      let above : Ptr = at tes (parent (suc h)) in
      elim (Bool-cases (ltb (when t) (when above))) [
        | inr fits ↦ rw fits (suc h, used, at-set_self tes (suc h) t inside)
        | inl later ↦ rw later (
            climb-has rounds (set tes (suc h) above) (parent (suc h)) (omega arith)
              (rw (length-set tes (suc h) above) (omega arith)) (omega arith))
      ]

  pub length-climb :
      (rounds : ℕ) (tes : List Ptr) (h : ℕ) → length (climb when rounds tes h t) ≡ length tes
  unfolding climb
  length-climb zero tes h = refl
  length-climb (suc rounds) tes zero = length-set tes zero t
  length-climb (suc rounds) tes (suc h) =
      let above : Ptr = at tes (parent (suc h)) in
      elim (Bool-cases (ltb (when t) (when above))) [
        | inl later ↦ rw later (
            length-climb rounds (set tes (suc h) above) (parent (suc h))
            ∙ length-set tes (suc h) above)
        | inr fits ↦ rw fits (length-set tes (suc h) t)
      ]

  -- A write of an element that satisfies `P` keeps `P`.
  pub set-all :
      (P : Ptr → Type 0) (tes : List Ptr) (h i : ℕ) (p : Ptr)
      → h < length tes
      → P p
      → ((i : ℕ) → i < n → i ≢ h → P (at tes i))
      → i < n
      → P (at (set tes h p) i)
  set-all P tes h i p inside new all lt = elim (Bool-cases (h == i)) [
    | inl e ↦ rw (← (==_iff h i).0 e, at-set_self tes h p inside) new
    | inr ne ↦ rw (at-set_ne tes h i p (ground arith)) (all i lt (ground arith))
  ]

  -- What holds of the timers outside the hole and of `t` holds of the whole array.
  pub climb-all :
      (P : Ptr → Type 0) (rounds : ℕ) (tes : List Ptr) (h : ℕ)
      → h < rounds
      → h < length tes
      → h < n
      → P t
      → ((i : ℕ) → i < n → i ≢ h → P (at tes i))
      → (i : ℕ) → i < n
      → P (at (climb when rounds tes h t) i)
  unfolding climb
  climb-all P zero tes h enough inside used new all i lt = absurd (omega arith)
  climb-all P (suc rounds) tes zero enough inside used new all i lt =
      set-all P tes zero i t inside new all lt
  climb-all P (suc rounds) tes (suc h) enough inside used new all i lt =
      let above : Ptr = at tes (parent (suc h)) in
      elim (Bool-cases (ltb (when t) (when above))) [
        | inr fits ↦ rw fits (set-all P tes (suc h) i t inside new all lt)
        | inl later ↦ rw later (
            climb-all P rounds (set tes (suc h) above) (parent (suc h)) (omega arith)
              (rw (length-set tes (suc h) above) (omega arith)) (omega arith) new
              (λ k k_lt ne.
                set-all P tes (suc h) k above inside
                  (all (parent (suc h)) (omega arith) (λ e. omega (arith, e))) all k_lt)
              i lt)
      ]
