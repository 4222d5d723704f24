-- ===== src/Skiplist/Splice.antt =====
-- A node put into a chain of skiplist/skiplist.c or taken out of it: the pointers of the last nodes
-- before it change, at its levels.
use libakio.Prelude.{
  ℕ, ◌≡◌, ◌≢◌, inl, inr, refl, sym, ap, ◌∙◌, arith, true, false, ◌&&◌, List, [], ◌∷◌, ◌++◌, ltb,
  ◌==◌, ==_iff, Bool-cases, if◌then◌else◌,
}
use libakio.Skiplist.Memory.{Ptr, Cells}
use libakio.Skiplist.Views.{Shape, IsAt, shape, fwd, IsAt-kept}
use libakio.Skiplist.Items.{
  Item, next_at, prev_at, tall, has, Distinct, next_at-append, prev_at-short, prev_at-has, IsNode,
  Chain, IsHeader, Chain-kept, has-append,
}

module _ {K : Type 0} (it : Item K) (low high : List (Item K)) where
  next-passed : (j : ℕ) → tall j low ≡ true → next_at j (low ++ high) ≡ next_at j (low ++ it ∷ high)
  next-passed j t =
      next_at-append j low high ∙ rw t (sym (next_at-append j low (it ∷ high) ∙ rw t refl))

  next-reached : (j : ℕ) → tall j low ≡ false → next_at j (low ++ high) ≡ next_at j high
  next-reached j t = next_at-append j low high ∙ rw t refl

  next-it :
      (j : ℕ)
      → tall j low ≡ false
      → next_at j (low ++ it ∷ high) ≡ (if ltb j it.height then it.addr else next_at j high)
  next-it j t = next_at-append j low (it ∷ high) ∙ rw t refl

  -- The last node of a level that reaches into `low` is not one before it.
  prev-apart :
      (j : ℕ) (d e : Ptr) → tall j low ≡ true → has d low ≡ false → (d == prev_at j e low) ≡ false
  prev-apart j d e t out = elim (Bool-cases (d == prev_at j e low)) [
    | inr ne ↦ ne
    | inl same ↦
        let eq : d ≡ prev_at j e low = (==_iff d (prev_at j e low)).0 same in
        absurd (cc (sym out ∙ ap (λ a. has a low) eq ∙ prev_at-has j e low t))
  ]

  module _ (cells cells' : Cells K) (d : Ptr) (j : ℕ) (out : has d low ≡ false) where
    inserted_link :
        fwd cells d j ≡ next_at j (low ++ high)
        → fwd cells' d j
          ≡ (if ltb j it.height && (d == prev_at j d low) then it.addr else fwd cells d j)
        → fwd cells' d j ≡ next_at j (low ++ it ∷ high)
    inserted_link old change = elim (Bool-cases (tall j low)) [
      | inl t ↦
          let apart : (d == prev_at j d low) ≡ false = prev-apart j d d t out in
          change
          ∙ (let stays : (ltb j it.height && (d == prev_at j d low)) ≡ false = ground arith in
              rw stays old)
          ∙ next-passed j t
      | inr t ↦
          change
          ∙ rw (prev_at-short j d low t) (elim (Bool-cases (ltb j it.height)) [
            | inl reach ↦
                let hit : (ltb j it.height && (d == d)) ≡ true = ground arith in
                rw (hit, next-it j t, reach) refl
            | inr below ↦
                let miss : (ltb j it.height && (d == d)) ≡ false = ground arith in
                rw (miss, next-it j t, below) (old ∙ next-reached j t)
          ])
    ]

    removed_link :
        fwd cells d j ≡ next_at j (low ++ it ∷ high)
        → fwd cells' d j
          ≡ (if ltb j it.height && (d == prev_at j d low) then next_at j high else fwd cells d j)
        → fwd cells' d j ≡ next_at j (low ++ high)
    removed_link old change = elim (Bool-cases (tall j low)) [
      | inl t ↦
          let apart : (d == prev_at j d low) ≡ false = prev-apart j d d t out in
          change
          ∙ (let stays : (ltb j it.height && (d == prev_at j d low)) ≡ false = ground arith in
              rw stays old)
          ∙ sym (next-passed j t)
      | inr t ↦
          change
          ∙ rw (prev_at-short j d low t) (elim (Bool-cases (ltb j it.height)) [
            | inl reach ↦
                let hit : (ltb j it.height && (d == d)) ≡ true = ground arith in
                rw (hit, next-reached j t) refl
            | inr below ↦
                let miss : (ltb j it.height && (d == d)) ≡ false = ground arith in
                rw miss (old ∙ next-it j t ∙ rw below (sym (next-reached j t)))
          ])
    ]

module _ {K : Type 0} (it : Item K) (high : List (Item K)) (cells cells' : Cells K) where
  -- the pointers after the node has been put behind the last nodes before it, or taken from there
  abbrev pub Changed : (ℕ → Ptr) → (ℕ → Ptr) → List (Item K) → Type 0
  Changed target base low =
      (p : Ptr) (j : ℕ)
      → p ≢ it.addr
      → fwd cells' p j
        ≡ (if ltb j it.height && (p == prev_at j (base j) low) then target j else fwd cells p j)

  abbrev pub ShapesKept : Type 0
  ShapesKept = (p : Ptr) → p ≢ it.addr → shape cells' p ≡ shape cells p

  -- no node of the list is one of those before it
  abbrev pub Apart : (ℕ → Ptr) → List (Item K) → Type 0
  Apart base xs = (a : Ptr) (j : ℕ) → has a xs ≡ true → (a == base j) ≡ false

  not_it : (a : Ptr) (xs : List (Item K)) → has a xs ≡ true → has it.addr xs ≡ false → a ≢ it.addr
  not_it a xs inside out e = cc (sym inside ∙ ap (λ b. has b xs) e ∙ out)

  Apart-tail :
      (base : ℕ → Ptr) (x : Item K) (xs : List (Item K))
      → has x.addr xs ≡ false
      → Apart base (x ∷ xs)
      → Apart (λ j. if ltb j x.height then x.addr else base j) xs
  Apart-tail base x xs out apart a j inside = elim (Bool-cases (ltb j x.height)) [
    | inr t ↦ rw t (apart a j (ground arith))
    | inl t ↦ rw t (elim (Bool-cases (a == x.addr)) [
      | inr ne ↦ ne
      | inl e ↦ absurd (cc (sym out ∙ ap (λ b. has b xs) (sym ((==_iff a x.addr).0 e)) ∙ inside))
    ])
  ]

  behind-kept :
      (target base : ℕ → Ptr)
      → ShapesKept
      → Changed target base []
      → Apart base high
      → has it.addr high ≡ false
      → Chain cells high
      → Chain cells' high
  behind-kept target base shapes change apart out =
      Chain-kept cells cells' high (λ a inside. shapes a (not_it a high inside out))
        (λ a j inside.
          let miss : (ltb j it.height && (a == base j)) ≡ false =
            ground (arith, apart a j inside) in
          change a j (not_it a high inside out) ∙ rw miss refl)

  kept_at :
      (x : Item K) (s : Shape K)
      → ShapesKept
      → x.addr ≢ it.addr
      → IsAt cells x.addr s
      → IsAt cells' x.addr s
  kept_at x s shapes ne at = IsAt-kept cells cells' x.addr s (shapes x.addr ne) at

  pub Chain-insert :
      (base : ℕ → Ptr) (low : List (Item K))
      → ShapesKept
      → Changed (λ j. it.addr) base low
      → IsNode cells' it high
      → Apart base (low ++ high)
      → has it.addr (low ++ high) ≡ false
      → Distinct (low ++ high)
      → Chain cells (low ++ high)
      → Chain cells' (low ++ it ∷ high)
  Chain-insert base [] shapes change node apart out distinct chain =
      (node, behind-kept (λ j. it.addr) base shapes change apart out chain)
  Chain-insert base (x ∷ xs) shapes change node apart out (x_out, distinct) (here, chain) =
      let ne : x.addr ≢ it.addr = not_it x.addr (x ∷ xs ++ high) (ground arith) out in
      (
        record {
          room = here.room;
          at = kept_at x _ shapes ne here.at;
          high = here.high;
          links = λ j lt.
              let reach : ltb j x.height ≡ true = ground arith in
              inserted_link it xs high cells cells' x.addr j
                (ground (arith, has-append x.addr xs high)) (here.links j lt)
                (change x.addr j ne ∙ rw reach refl);
        },
        Chain-insert (λ j. if ltb j x.height then x.addr else base j) xs shapes change node
            (Apart-tail base x (xs ++ high) x_out apart) (ground arith) distinct chain,
      )

  pub Chain-remove :
      (base : ℕ → Ptr) (low : List (Item K))
      → ShapesKept
      → Changed (λ j. next_at j high) base low
      → Apart base (low ++ it ∷ high)
      → has it.addr low ≡ false
      → has it.addr high ≡ false
      → Distinct (low ++ it ∷ high)
      → Chain cells (low ++ it ∷ high)
      → Chain cells' (low ++ high)
  Chain-remove base [] shapes change apart out_low out distinct (node, chain) =
      behind-kept (λ j. next_at j high) base shapes change (λ a j inside. apart a j (ground arith))
        out chain
  Chain-remove base (x ∷ xs) shapes change apart out_low out (x_out, distinct) (here, chain) =
      let ne : x.addr ≢ it.addr = not_it x.addr (x ∷ xs) (ground arith) out_low in
      (
        record {
          room = here.room;
          at = kept_at x _ shapes ne here.at;
          high = here.high;
          links = λ j lt.
              let reach : ltb j x.height ≡ true = ground arith in
              removed_link it xs high cells cells' x.addr j
                (ground (arith, has-append x.addr xs (it ∷ high))) (here.links j lt)
                (change x.addr j ne ∙ rw reach refl);
        },
        Chain-remove (λ j. if ltb j x.height then x.addr else base j) xs shapes change
            (Apart-tail base x (xs ++ it ∷ high) x_out apart) (ground arith) out distinct chain,
      )

  pub IsHeader-insert :
      (header levels : ℕ) (low : List (Item K))
      → ShapesKept
      → Changed (λ j. it.addr) (λ j. header) low
      → header ≢ it.addr
      → has header low ≡ false
      → IsHeader cells header levels (low ++ high)
      → IsHeader cells' header levels (low ++ it ∷ high)
  IsHeader-insert header levels low shapes change ne out head = record {
    value = head.value;
    room = head.room;
    at = IsAt-kept cells cells' header _ (shapes header ne) head.at;
    high = head.high;
    links = λ j lt.
        inserted_link it low high cells cells' header j out (head.links j lt) (change header j ne);
  }

  pub IsHeader-remove :
      (header levels : ℕ) (low : List (Item K))
      → ShapesKept
      → Changed (λ j. next_at j high) (λ j. header) low
      → header ≢ it.addr
      → has header low ≡ false
      → IsHeader cells header levels (low ++ it ∷ high)
      → IsHeader cells' header levels (low ++ high)
  IsHeader-remove header levels low shapes change ne out head = record {
    value = head.value;
    room = head.room;
    at = IsAt-kept cells cells' header _ (shapes header ne) head.at;
    high = head.high;
    links = λ j lt.
        removed_link it low high cells cells' header j out (head.links j lt) (change header j ne);
  }
