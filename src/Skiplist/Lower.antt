-- ===== src/Skiplist/Lower.antt =====
-- The last loop of skiplist_delete of skiplist/skiplist.c gives up the levels that no node is in.
use libakio.Prelude.{
  ℕ, zero, suc, ◌<◌, ◌≤◌, ◌≡◌, ◌≢◌, inl, inr, refl, sym, ap, ◌∙◌, arith, true, false, List, [], ◌∷◌,
  ltb, ◌==◌, ==_iff, Bool-cases, ok,
}
use libakio.Skiplist.{max_level, lower}
use libakio.Skiplist.Memory.{Ptr, null, Cells, get_forward}
use libakio.Skiplist.Views.{get_forward-run}
use libakio.Skiplist.Items.{Item, next_at, tall, has, Chain, IsHeader}
use libakio.Skiplist.Valid.{Heights}

module _ {K : Type 0} where
  next_at-null :
      (cells : Cells K) (j : ℕ) (xs : List (Item K))
      → Chain cells xs
      → next_at j xs ≡ null
      → tall j xs ≡ false
  next_at-null cells j [] chain e = refl
  next_at-null cells j (x ∷ xs) (node, chain) e = elim (Bool-cases (ltb j x.height)) [
    | inl t ↦
        absurd (node.at.valid (let here : next_at j (x ∷ xs) ≡ x.addr = rw t refl in sym here ∙ e))
    | inr t ↦ rw t (
        next_at-null cells j xs chain
          (let here : next_at j (x ∷ xs) ≡ next_at j xs = rw t refl in sym here ∙ e))
  ]

  -- The first node of a level is one of the nodes.
  pub next_at-ne :
      (a : Ptr) (j : ℕ) (xs : List (Item K)) → a ≢ null → has a xs ≡ false → next_at j xs ≢ a
  next_at-ne a j [] ne out e = ne (sym e)
  next_at-ne a j (x ∷ xs) ne out e = elim (Bool-cases (ltb j x.height)) [
    | inl t ↦
        let here : next_at j (x ∷ xs) ≡ x.addr = rw t refl in
        let same : (a == x.addr) ≡ true = (==_iff a x.addr).1 (sym e ∙ here) in ground arith
    | inr t ↦
        next_at-ne a j xs ne (ground arith)
          (let here : next_at j (x ∷ xs) ≡ next_at j xs = rw t refl in sym here ∙ e)
  ]

  Heights-lower :
      (level : ℕ) (xs : List (Item K))
      → tall level xs ≡ false
      → Heights (suc level) xs
      → Heights level xs
  Heights-lower level [] e heights = tt
  Heights-lower level (x ∷ xs) e ((pos, le), heights) =
      ((pos, ground arith), Heights-lower level xs (ground arith) heights)

  lower-stay :
      (level : ℕ) (header top : Ptr) (cells : Cells K)
      → get_forward cells header (suc level) ≡ ok top
      → (top == null) ≡ false
      → lower (suc (suc level)) header cells ≡ ok (suc (suc level))
  unfolding lower
  lower-stay level header top cells g ne = rw (g, ne) refl

  lower-down :
      (level : ℕ) (header top : Ptr) (cells : Cells K)
      → get_forward cells header (suc level) ≡ ok top
      → (top == null) ≡ true
      → lower (suc (suc level)) header cells ≡ lower (suc level) header cells
  unfolding lower
  lower-down level header top cells g e = rw (g, e) refl

  pub lower-Heights :
      (level : ℕ) (header : Ptr) (cells : Cells K) (xs : List (Item K))
      → 0 < level
      → level ≤ max_level
      → IsHeader cells header max_level xs
      → Chain cells xs
      → Heights level xs
      → (level' : ℕ) × (lower level header cells ≡ ok level')
        × (0 < level')
        × (level' ≤ level)
        × Heights level' xs
  unfolding lower
  lower-Heights zero header cells xs pos le head chain heights = absurd (omega arith)
  lower-Heights (suc zero) header cells xs pos le head chain heights =
      (1, refl, pos, omega arith, heights)
  lower-Heights (suc (suc level)) header cells xs pos le head chain heights =
      let got : get_forward cells header (suc level) ≡ ok (next_at (suc level) xs) =
        get_forward-run cells header (suc level) _ head.at (omega (arith, head.high))
        ∙ ap ok (head.links (suc level) (omega arith)) in
      elim (Bool-cases (next_at (suc level) xs == null)) [
        | inr ne ↦
            (suc (suc level), lower-stay level header _ cells got ne, pos, omega arith, heights)
        | inl e ↦
            let empty : tall (suc level) xs ≡ false =
              next_at-null cells (suc level) xs chain ((==_iff _ null).0 e) in
            let (level', run, pos', le', heights') =
              lower-Heights (suc level) header cells xs (omega arith) (omega arith) head chain
                (Heights-lower (suc level) xs empty heights) in
            (level', lower-down level header _ cells got e ∙ run, pos', omega arith, heights')
      ]
