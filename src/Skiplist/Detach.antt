-- ===== src/Skiplist/Detach.antt =====
-- skiplist_delete of skiplist/skiplist.c takes the node that was found out of its levels and frees it.
use Prim.Native.Nat.{Ordering}
use libakio.Prelude.{
  ℕ, ◌+◌, ◌-◌, ◌^◌, ◌<◌, ◌≤◌, ◌≡◌, ◌≢◌, inl, inr, refl, sym, ap, ◌∙◌, arith, true, false, ◌&&◌,
  none, List, ◌∷◌, ◌++◌, length, get_or, ltb, leb, ◌==◌, ne→==-false, Bool-cases, if◌then◌else◌, ok,
  read-in, wrap,
}
use libakio.Skiplist.{Skiplist, max_level, unlink, lower, delete_node}
use libakio.Skiplist.Memory.{Ptr, null, Node, Cells, update, deref}
use libakio.Skiplist.Views.{shape, shape_of, pointer_of, fwd, deref-run, IsAt-kept}
use libakio.Skiplist.Items.{
  Item, next_at, prev_at, has, IsNode, Chain, IsHeader, Chain-right, has-append,
}
use libakio.Skiplist.Splice.{Chain-remove, IsHeader-remove}
use libakio.Skiplist.Unlink.{IsTaken, IsUnlinked}
use libakio.Skiplist.Valid.{IsSkiplist, Heights-right, prev-Spot, prev-fwd}
use libakio.Skiplist.Revise.{
  has-insert, Distinct-remove, Distinct-out, Heights-remove, length-insert, Sorted-remove,
}
use libakio.Skiplist.Lower.{next_at-ne, lower-Heights}
use libakio.Skiplist.Fresh.{prev_at-apart}

module _ {K : Type 0} (compare : K → K → Ordering) where
  delete_node-steps :
      (list : Skiplist) (cells unlinked : Cells K) (x : Ptr) (updates : List Ptr) (n : Node K)
      (level : ℕ)
      → unlink list.level 0 x updates cells ≡ ok unlinked
      → deref unlinked x ≡ ok n
      → lower list.level list.header (update unlinked x none) ≡ ok level
      → delete_node compare list cells x updates
        ≡ ok (
          n.value,
          record list { level = level; len = wrap 64 (list.len + (2 ^ 64 - 1)) },
          update unlinked x none,
        )
  unfolding delete_node
  delete_node-steps list cells unlinked x updates n level u d l = rw (u, d, l) refl

  module _ (list : Skiplist) (cells : Cells K) (lows high : List (Item K)) (it : Item K)
      (valid : IsSkiplist compare list cells (lows ++ it ∷ high)) where
    abbrev prevs : ℕ → Ptr
    prevs j = prev_at j list.header lows

    out : has it.addr (lows ++ high) ≡ false
    out = Distinct-out it high lows valid.distinct

    node : IsNode cells it high
    node = (Chain-right cells lows (it ∷ high) valid.chain).0

    header_ne : list.header ≢ it.addr
    header_ne e = ground (arith, has-insert it high list.header lows, valid.apart)

    inside : (0 < it.height) × (it.height ≤ list.level)
    inside = (Heights-right list.level lows (it ∷ high) valid.heights).0

    pub it-IsTaken :
        (updates : List Ptr)
        → length updates ≡ max_level
        → ((j : ℕ) → j < list.level → get_or updates j null ≡ prevs j)
        → IsTaken it.addr prevs it.height list.level 0 updates cells
    it-IsTaken updates size found =
        let ahead : (j : ℕ) → j < list.level → fwd cells (prevs j) j ≡ next_at j (it ∷ high) =
          λ j lt.
            prev-fwd cells list.header j lows (it ∷ high) (omega (arith, valid.level_max))
              valid.header valid.chain in
        record {
          apart = λ j.
              prev_at-apart it.addr j list.header lows header_ne
                (ground (arith, has-append it.addr lows high, out));
          entries = λ j e.
              read-in updates j null (ground (arith, valid.level_max))
              ∙ ap ok (found j (ground arith));
          befores = λ j e.
              prev-Spot cells list.header j lows (it ∷ high) (ground (arith, valid.level_max))
                valid.header valid.chain;
          hits = λ j e lt.
              let reach : ltb j it.height ≡ true = ground arith in
              ahead j (ground arith) ∙ rw reach refl;
          misses = λ j e le same.
              let over : ltb j it.height ≡ false = ground arith in
              let behind : next_at j (it ∷ high) ≡ next_at j high = rw over refl in
              next_at-ne it.addr j high node.at.valid
                (ground (arith, has-append it.addr lows high, out))
                (sym behind ∙ sym (ahead j (ground arith)) ∙ same);
          own = λ j lt. record { shape = _; at = node.at; inside = omega (arith, node.high) };
          covered = omega (arith, inside.1);
        }

    module _ (unlinked : Cells K)
        (taken : IsUnlinked it.addr prevs 0 it.height cells unlinked) where
      abbrev freed : Cells K
      freed = update unlinked it.addr none

      freed-other : (p : Ptr) → p ≢ it.addr → freed p ≡ unlinked p
      unfolding update
      freed-other p ne = rw (ne→==-false p it.addr ne) refl

      shapes : (p : Ptr) → p ≢ it.addr → shape freed p ≡ shape cells p
      shapes p ne = ap (λ o. shape_of o) (freed-other p ne) ∙ taken.shapes p

      change :
          (p : Ptr) (j : ℕ)
          → p ≢ it.addr
          → fwd freed p j
            ≡ (if ltb j it.height && (p == prevs j) then next_at j high else fwd cells p j)
      change p j ne =
          let range : (leb 0 j && ltb j it.height) ≡ ltb j it.height = ground arith in
          ap (λ o. pointer_of o j) (freed-other p ne)
          ∙ taken.others p j ne
          ∙ rw range (elim (Bool-cases (ltb j it.height)) [
            | inl reach ↦ rw (reach, node.links j (ground arith)) refl
            | inr over ↦ rw over refl
          ])

      header_out : has list.header lows ≡ false
      header_out = ground (arith, has-append list.header lows (it ∷ high), valid.apart)

      freed-IsHeader : IsHeader freed list.header max_level (lows ++ high)
      freed-IsHeader =
          IsHeader-remove it high cells freed list.header max_level lows shapes change header_ne
            header_out valid.header

      freed-Chain : Chain freed (lows ++ high)
      freed-Chain =
          Chain-remove it high cells freed (λ j. list.header) lows shapes change
            (λ a j e.
              ne→==-false a list.header
                (λ same. cc (sym e ∙ ap (λ b. has b (lows ++ it ∷ high)) same ∙ valid.apart)))
            (ground (arith, has-append it.addr lows high, out))
            (ground (arith, has-append it.addr lows high, out)) valid.distinct valid.chain

      pub detached :
          (updates : List Ptr)
          → unlink list.level 0 it.addr updates cells ≡ ok unlinked
          → (list' : Skiplist) × (delete_node compare list cells it.addr updates
              ≡ ok (it.value, list', freed))
            × IsSkiplist compare list' freed (lows ++ high)
      detached updates run =
          let (level, low_run, pos, le, heights) =
            lower-Heights list.level list.header freed (lows ++ high) valid.level_pos
              valid.level_max freed-IsHeader freed-Chain
              (Heights-remove it high list.level lows valid.heights) in
          let (n, (here, (has_key, has_value))) =
            deref-run unlinked it.addr _
              (IsAt-kept cells unlinked it.addr _ (taken.shapes it.addr) node.at) in
          (
            record list { level = level; len = wrap 64 (list.len + (2 ^ 64 - 1)) },
            delete_node-steps list cells unlinked it.addr updates n level run here low_run
                ∙ ap
                    (λ v. ok (
                      v,
                      record list { level = level; len = wrap 64 (list.len + (2 ^ 64 - 1)) },
                      freed,
                    ))
                    has_value,
            record {
              header = freed-IsHeader;
              chain = freed-Chain;
              sorted = Sorted-remove it high compare lows valid.sorted;
              distinct = Distinct-remove it high lows valid.distinct;
              apart = ground (arith, has-insert it high list.header lows, valid.apart);
              heights = heights;
              level_pos = pos;
              level_max = omega (arith, valid.level_max);
              count = omega (arith, valid.count, length-insert it high lows);
            },
          )
