-- ===== src/Skiplist/Revalue.antt =====
-- skiplist_insert of skiplist/skiplist.c for a key that the list has: the node gets the new value.
use Prim.Native.Nat.{Ordering}
use libakio.Prelude.{
  ℕ, ◌≡◌, ◌≢◌, inl, inr, refl, sym, ap, ◌∙◌, arith, true, false, some, List, [], ◌∷◌, ◌++◌, ◌==◌,
  ==_iff, ne→==-false, Bool-cases, if◌then◌else◌, ok, wrap, ◌≤◌,
}
use libakio.Skiplist.{Skiplist, is_eq, set_value}
use libakio.Skiplist.Memory.{Ptr, Cells, update}
use libakio.Skiplist.Views.{IsAt, shape, fwd, deref-node, node_of, IsAt-kept}
use libakio.Skiplist.Items.{Item, next_at, has, next_at-append, Chain, Chain-kept}
use libakio.Skiplist.Order.{IsOrder, Below, lookup, Sorted-append}
use libakio.Skiplist.Valid.{IsSkiplist, Heights-right}
use libakio.Skiplist.Revise.{
  has-insert, Distinct-insert, Distinct-remove, Distinct-out, Heights-insert, Heights-remove,
  length-insert, Sorted-insert, Sorted-remove, lookup-insert,
}

module _ {K : Type 0} where
  -- The memory with another value in the node.
  pub record IsRevalued (cells : Cells K) (p : Ptr) (key : K) (value room : ℕ) (cells' : Cells K)
      : Type 0 where
    pub at : IsAt cells' p (record { key = some key; value = value; room = room })
    pub shapes : (a : Ptr) → a ≢ p → shape cells' a ≡ shape cells a
    pub pointers : (a : Ptr) (j : ℕ) → fwd cells' a j ≡ fwd cells a j

  pub set_value-run :
      (cells : Cells K) (p : Ptr) (key : K) (old value room : ℕ)
      → IsAt cells p (record { key = some key; value = old; room = room })
      → (cells' : Cells K) × ((set_value cells p value ≡ ok cells')
          × IsRevalued cells p key value room cells')
  unfolding update
  set_value-run cells p key old value room at =
      let (n, (here, (has_key, (has_value, has_room)))) = node_of (cells p) _ at.here in
      let hit : (p == p) ≡ true = ground arith in
      (
        update cells p (some (record n { value = value })),
        (
          rw (deref-node cells p n at.valid here) refl,
          record {
            at = record { valid = at.valid; here = rw (hit, has_key, has_room) refl };
            shapes = λ a ne. rw (ne→==-false a p ne) refl;
            pointers = λ a j. elim (Bool-cases (a == p)) [
              | inl e ↦ let eq : a ≡ p = (==_iff a p).0 e in rw (e, eq, here) refl
              | inr ne ↦ rw ne refl
            ];
          },
        ),
      )

module _ {K : Type 0} (it : Item K) (high : List (Item K)) (value : ℕ) where
  -- the node with the new value
  abbrev pub revalued : Item K
  revalued = record it { value = value }

  next_at-revalued :
      (j : ℕ) (low : List (Item K))
      → next_at j (low ++ it ∷ high) ≡ next_at j (low ++ revalued ∷ high)
  next_at-revalued j low =
      next_at-append j low (it ∷ high) ∙ sym (next_at-append j low (revalued ∷ high))

  module _ (cells cells' : Cells K) (room : ℕ)
      (change : IsRevalued cells it.addr it.key value room cells') where
    Chain-revalued :
        (low : List (Item K))
        → it.height ≤ room
        → has it.addr (low ++ high) ≡ false
        → Chain cells (low ++ it ∷ high)
        → Chain cells' (low ++ revalued ∷ high)
    Chain-revalued [] fits out (node, chain) = (
      record {
        room = room;
        at = change.at;
        high = fits;
        links = λ i lt. change.pointers it.addr i ∙ node.links i lt;
      },
      Chain-kept cells cells' high
          (λ a inside. change.shapes a (λ e. cc (sym inside ∙ ap (λ b. has b high) e ∙ out)))
          (λ a i inside. change.pointers a i) chain,
    )
    Chain-revalued (x ∷ xs) fits out (node, chain) = (
      record {
        room = node.room;
        at = IsAt-kept cells cells' x.addr _ (change.shapes x.addr (λ e. ground arith)) node.at;
        high = node.high;
        links = λ i lt. change.pointers x.addr i ∙ node.links i lt ∙ next_at-revalued i xs;
      },
      Chain-revalued xs fits (ground arith) chain,
    )

    pub revalued-IsSkiplist :
        (compare : K → K → Ordering) (list : Skiplist) (low : List (Item K))
        → it.height ≤ room
        → Below compare it.key low
        → IsSkiplist compare list cells (low ++ it ∷ high)
        → IsSkiplist compare list cells' (low ++ revalued ∷ high)
    revalued-IsSkiplist compare list low fits below valid =
        let out : has it.addr (low ++ high) ≡ false = Distinct-out it high low valid.distinct in
        let same_has : (a : Ptr) → has a (low ++ revalued ∷ high) ≡ has a (low ++ it ∷ high) =
          λ a. has-insert revalued high a low ∙ sym (has-insert it high a low) in
        let here = (Heights-right list.level low (it ∷ high) valid.heights).0 in
        let ne : list.header ≢ it.addr =
          λ e. ground (arith, has-insert it high list.header low, valid.apart) in
        record {
          header = record {
            value = valid.header.value;
            room = valid.header.room;
            at =
                IsAt-kept cells cells' list.header _ (change.shapes list.header ne) valid.header.at;
            high = valid.header.high;
            links = λ j lt.
                change.pointers list.header j ∙ valid.header.links j lt ∙ next_at-revalued j low;
          };
          chain = Chain-revalued low fits out valid.chain;
          sorted =
              Sorted-insert revalued high compare low below
                (Sorted-append compare low (it ∷ high) valid.sorted).1.0
                (Sorted-remove it high compare low valid.sorted);
          distinct =
              Distinct-insert revalued high low out (Distinct-remove it high low valid.distinct);
          apart = same_has list.header ∙ valid.apart;
          heights =
              Heights-insert revalued high list.level low here.0 here.1
                (Heights-remove it high list.level low valid.heights);
          level_pos = valid.level_pos;
          level_max = valid.level_max;
          count =
              valid.count
              ∙ ap (wrap 64) (length-insert it high low ∙ sym (length-insert revalued high low));
        }

  -- Look-up of the key finds the new value, and every other key what it had.
  pub lookup-revalued :
      (compare : K → K → Ordering)
      → IsOrder compare
      → (k : K) (low : List (Item K)) → Below compare it.key low
      → lookup compare k (low ++ revalued ∷ high)
        ≡ (if is_eq (compare it.key k) then some value else lookup compare k (low ++ it ∷ high))
  lookup-revalued compare order k low below =
      lookup-insert revalued high compare order k low below
      ∙ (elim (Bool-cases (is_eq (compare it.key k))) [
        | inl hit ↦ rw hit refl
        | inr miss ↦
            let old : lookup compare k (low ++ it ∷ high) ≡ lookup compare k (low ++ high) =
              lookup-insert it high compare order k low below ∙ rw miss refl in
            rw miss (sym old)
      ])
