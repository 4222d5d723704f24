-- ===== src/Skiplist/Free.antt =====
-- skiplist_free of skiplist/skiplist.c gives back the header and every node, and nothing else.
use Prim.Native.Nat.{Ordering}
use libakio.Prelude.{
  ℕ, zero, suc, ◌<◌, ◌≡◌, ◌≢◌, inl, inr, refl, sym, ap, ◌∙◌, arith, Bool, true, false, ◌||◌, none,
  some, List, [], ◌∷◌, length, ◌==◌, ==_iff, ne→==-false, Bool-cases, if◌then◌else◌, ok,
}
use libakio.Skiplist.{Skiplist, free_loop, free}
use libakio.Skiplist.Memory.{Ptr, null, Cells, update, get_forward}
use libakio.Skiplist.Views.{shape_of, pointer_of, get_forward-run}
use libakio.Skiplist.Items.{Item, next_at, has, Distinct, Chain, Chain-kept}
use libakio.Skiplist.Valid.{IsSkiplist, Heights, next_at-first}

module _ {K : Type 0} where
  freed-other : (cells : Cells K) (x p : Ptr) → p ≢ x → update cells x none p ≡ cells p
  unfolding update
  freed-other cells x p ne = rw (ne→==-false p x ne) refl

  freed-Chain :
      (cells : Cells K) (x : Ptr) (xs : List (Item K))
      → has x xs ≡ false
      → Chain cells xs
      → Chain (update cells x none) xs
  freed-Chain cells x xs out chain =
      let other : (a : Ptr) → has a xs ≡ true → update cells x none a ≡ cells a =
        λ a inside. freed-other cells x a (λ e. cc (sym inside ∙ ap (λ b. has b xs) e ∙ out)) in
      Chain-kept cells (update cells x none) xs (λ a inside. ap (λ o. shape_of o) (other a inside))
        (λ a i inside. ap (λ o. pointer_of o i) (other a inside)) chain

  free_loop-step :
      (fuel : ℕ) (x next : Ptr) (cells : Cells K)
      → x ≢ null
      → get_forward cells x 0 ≡ ok next
      → free_loop (suc fuel) x cells ≡ free_loop fuel next (update cells x none)
  unfolding free_loop
  free_loop-step fuel zero next cells ne g = absurd (ne refl)
  free_loop-step fuel (suc p) next cells ne g = rw g refl

  free_loop-run :
      (fuel level : ℕ) (cells : Cells K) (xs : List (Item K))
      → length xs < fuel
      → Heights level xs
      → Distinct xs
      → Chain cells xs
      → (cells' : Cells K) × (free_loop fuel (next_at 0 xs) cells ≡ ok cells')
        × ((p : Ptr) → cells' p ≡ (if has p xs then none else cells p))
  unfolding free_loop update
  free_loop-run zero level cells xs enough heights distinct chain = absurd (omega arith)
  free_loop-run (suc fuel) level cells [] enough heights distinct chain = (cells, refl, λ p. refl)
  free_loop-run (suc fuel) level cells (x ∷ xs) enough heights (out, distinct) (node, chain) =
      let first : next_at 0 (x ∷ xs) ≡ x.addr = next_at-first level x xs heights in
      let got : get_forward cells x.addr 0 ≡ ok (next_at 0 xs) =
        get_forward-run cells x.addr 0 _ node.at (omega (arith, heights.0.0, node.high))
        ∙ ap ok (node.links 0 heights.0.0) in
      let (cells', run, done) =
        free_loop-run fuel level (update cells x.addr none) xs (omega arith) heights.1 distinct
          (freed-Chain cells x.addr xs out chain) in
      (
        cells',
        ap (λ (p : Ptr). free_loop (suc fuel) p cells) first
            ∙ free_loop-step fuel x.addr _ cells node.at.valid got
            ∙ run,
        (λ p. done p ∙ (elim (Bool-cases (p == x.addr)) [
          | inl e ↦ rw e (if_same (has p xs) none)
          | inr ne ↦ rw ne refl
        ])),
      )
    where
      if_same : {A : Type 0} (b : Bool) (a : A) → (if b then a else a) ≡ a
      if_same true a = refl
      if_same false a = refl

  free-steps :
      (fuel : ℕ) (list : Skiplist) (cells : Cells K) (next : Ptr)
      → get_forward cells list.header 0 ≡ ok next
      → free fuel (some list) cells ≡ free_loop fuel next (update cells list.header none)
  unfolding free
  free-steps fuel list cells next g = rw g refl

  -- With fuel for more rounds than the list has nodes, skiplist_free on a well-formed list ends
  -- without a fault, frees the header and every node, and changes nothing else.
  pub free-all :
      (compare : K → K → Ordering) (fuel : ℕ) (list : Skiplist) (cells : Cells K)
      (items : List (Item K))
      → IsSkiplist compare list cells items
      → length items < fuel
      → (cells' : Cells K) × (free fuel (some list) cells ≡ ok cells')
        × ((p : Ptr) → cells' p ≡ (if (p == list.header) || has p items then none else cells p))
  unfolding update
  free-all compare fuel list cells items valid enough =
      let head = valid.header in
      let got : get_forward cells list.header 0 ≡ ok (next_at 0 items) =
        get_forward-run cells list.header 0 _ head.at (omega (arith, head.high))
        ∙ ap ok (head.links 0 (omega arith)) in
      let (cells', run, done) =
        free_loop-run fuel list.level (update cells list.header none) items enough valid.heights
          valid.distinct (freed-Chain cells list.header items valid.apart valid.chain) in
      (
        cells',
        free-steps fuel list cells _ got ∙ run,
        (λ p. done p ∙ (elim (Bool-cases (p == list.header)) [
          | inl e ↦
              rw e
                (let eq : p ≡ list.header = (==_iff p list.header).0 e in rw (eq, valid.apart) refl)
          | inr ne ↦ rw ne refl
        ])),
      )
