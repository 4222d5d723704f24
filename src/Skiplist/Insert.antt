-- ===== src/Skiplist/Insert.antt =====
-- skiplist_insert of skiplist/skiplist.c puts a new node into the list, at all its levels.
use Prim.Native.Nat.{Ordering}
use libakio.Prelude.{
  ℕ, ◌+◌, ◌-◌, ◌<◌, ◌≤◌, ◌≡◌, ◌≢◌, inl, inr, refl, sym, ap, ◌∙◌, arith, false, ◌&&◌, none, some,
  List, ◌∷◌, ◌++◌, length, get_or, ltb, ◌==◌, ==_iff, ne→==-false, Bool-cases, if◌then◌else◌, ok,
  read-in, wrap,
}
use libakio.Skiplist.{Skiplist, max_level, raise, link, create_node, insert_new}
use libakio.Skiplist.Memory.{Ptr, null, Cells}
use libakio.Skiplist.Views.{fwd}
use libakio.Skiplist.Items.{Item, prev_at, has, IsNode, Chain, IsHeader, prev_at-short, has-append}
use libakio.Skiplist.Order.{IsOrder, Above, Below}
use libakio.Skiplist.Splice.{Chain-insert, IsHeader-insert}
use libakio.Skiplist.Links.{IsLinked, in_range, link-run}
use libakio.Skiplist.Valid.{IsSkiplist, Heights, tall-Heights, prev-Spot, prev-fwd}
use libakio.Skiplist.Revise.{
  Distinct-insert, Heights-insert, Heights-raise, length-insert, Sorted-insert, has-insert,
}
use libakio.Skiplist.Level.{raise-run}
use libakio.Skiplist.Fresh.{
  with_node, with_node-IsAt, free-out, prev_at-apart, with_node-Chain, with_node-IsHeader,
  header_free,
}

-- The last node of each level is in the array up to the level of the new node.
pub raised :
    {K : Type 0} (list : Skiplist) (level : ℕ) (updates : List Ptr) (lows : List (Item K))
    → length updates ≡ max_level
    → level ≤ max_level
    → Heights list.level lows
    → ((j : ℕ) → j < list.level → get_or updates j null ≡ prev_at j list.header lows)
    → (updates' : List Ptr) × (((if ltb list.level level
            then raise (level - list.level) list.level list.header updates
            else ok updates)
          ≡ ok updates')
        × ((length updates' ≡ max_level)
            × ((j : ℕ) → j < level → get_or updates' j null ≡ prev_at j list.header lows)))
raised list level updates lows size le heights found = elim (Bool-cases (ltb list.level level)) [
  | inr lower ↦ (updates, (rw lower refl, (size, λ j lt. found j (ground arith))))
  | inl higher ↦
      let (updates', (run, done)) =
        raise-run list.header (level - list.level) list.level updates (ground arith) in
      (
        updates',
        (
          rw higher run,
          (
            done.size ∙ size,
            λ j lt. elim (Bool-cases (ltb j list.level)) [
              | inl old ↦ done.others j (ground arith) ∙ found j (ground arith)
              | inr new ↦
                  done.raised j (ground arith)
                  ∙ sym (
                      prev_at-short j list.header lows
                        (tall-Heights list.level j lows heights (ground arith)))
            ],
          ),
        ),
      )
]

module _ {K : Type 0} (compare : K → K → Ordering) where
  pub insert_new-steps :
      (list : Skiplist) (cells cells' : Cells K) (x : Ptr) (forward : List Ptr) (level : ℕ)
      (updates updates' : List Ptr) (key : K) (value : ℕ)
      → (if ltb list.level level
          then raise (level - list.level) list.level list.header updates
          else ok updates)
        ≡ ok updates'
      → link level 0 x updates' (with_node cells x key value forward) ≡ ok cells'
      → insert_new compare list cells (some (x, forward)) level updates key value
        ≡ ok (
          record list {
            level = if ltb list.level level then level else list.level;
            len = wrap 64 (list.len + 1);
          },
          cells',
        )
  unfolding insert_new create_node
  insert_new-steps list cells cells' x forward level updates updates' key value r l = rw (r, l) refl

  -- What the new node needs: a free address, and room for its pointers.
  pub record IsFresh (cells : Cells K) (x : Ptr) (forward : List Ptr) (level : ℕ) : Type 0 where
    pub valid : x ≢ null
    pub free : cells x ≡ none
    pub room : level ≤ length forward

  module _ (list : Skiplist) (cells : Cells K) (lows high : List (Item K)) (x : Ptr)
      (forward : List Ptr) (level : ℕ) (key : K) (value : ℕ)
      (valid : IsSkiplist compare list cells (lows ++ high)) (fresh : IsFresh cells x forward level)
      (le : level ≤ max_level) where
    abbrev it : Item K
    it = record { addr = x; key = key; value = value; height = level }

    abbrev made : Cells K
    made = with_node cells x key value forward

    abbrev prevs : ℕ → Ptr
    prevs j = prev_at j list.header lows

    header_ne : list.header ≢ x
    header_ne = header_free cells x list.header max_level (lows ++ high) fresh.free valid.header

    x_out : has x (lows ++ high) ≡ false
    x_out = free-out cells x (lows ++ high) fresh.free valid.chain

    made-Chain : Chain made (lows ++ high)
    made-Chain = with_node-Chain cells x key value forward (lows ++ high) fresh.free valid.chain

    made-IsHeader : IsHeader made list.header max_level (lows ++ high)
    made-IsHeader =
        with_node-IsHeader cells x key value forward list.header (lows ++ high) header_ne
          valid.header

    pub IsLinked-all :
        (updates' : List Ptr)
        → length updates' ≡ max_level
        → ((j : ℕ) → j < level → get_or updates' j null ≡ prevs j)
        → (cells' : Cells K) × ((link level 0 x updates' made ≡ ok cells')
            × IsLinked x prevs 0 level made cells')
    IsLinked-all updates' size found = link-run x prevs level 0 updates' made (record {
      apart = λ j.
          prev_at-apart x j list.header lows header_ne
            (ground (arith, has-append x lows high, x_out));
      entries = λ j inside. read-in updates' j null (ground arith) ∙ ap ok (found j (ground arith));
      befores = λ j inside.
          prev-Spot made list.header j lows high (ground arith) made-IsHeader made-Chain;
      news = λ j inside. record {
        shape = _;
        at = with_node-IsAt cells x key value forward fresh.valid;
        inside = ground (arith, fresh.room);
      };
    })

    module _ (cells' : Cells K) (linked : IsLinked x prevs 0 level made cells') where
      it-IsNode : IsNode cells' it high
      it-IsNode = record {
        room = length forward;
        at = record {
          valid = fresh.valid;
          here = linked.shapes x ∙ (with_node-IsAt cells x key value forward fresh.valid).here;
        };
        high = fresh.room;
        links = λ j lt.
            linked.new j (ground arith)
            ∙ prev-fwd made list.header j lows high (omega arith) made-IsHeader made-Chain;
      }

      change :
          (p : Ptr) (j : ℕ)
          → p ≢ x
          → fwd cells' p j ≡ (if ltb j level && (p == prevs j) then x else fwd made p j)
      change p j ne =
          let same : in_range 0 level j ≡ ltb j level = ground arith in
          linked.others p j ne ∙ rw same refl

      header_out : has list.header lows ≡ false
      header_out = ground (arith, has-append list.header lows high, valid.apart)

      pub inserted-IsSkiplist :
          0 < level
          → IsOrder compare
          → Below compare key lows
          → Above compare key high
          → IsSkiplist compare
              (record list {
                level = if ltb list.level level then level else list.level;
                len = wrap 64 (list.len + 1);
              })
              cells'
              (lows ++ it ∷ high)
      inserted-IsSkiplist pos order below above =
          let top : ℕ = if ltb list.level level then level else list.level in
          let top_level : level ≤ top = ground arith in
          let top_list : list.level ≤ top = ground arith in
          let top_max : top ≤ max_level = ground (arith, valid.level_max) in
          record {
            header =
                IsHeader-insert it high made cells' list.header max_level lows
                  (λ p ne. linked.shapes p) change header_ne header_out made-IsHeader;
            chain =
                Chain-insert it high made cells' (λ j. list.header) lows (λ p ne. linked.shapes p)
                  change it-IsNode
                  (λ a j inside. elim (Bool-cases (a == list.header)) [
                    | inr ne ↦ ne
                    | inl e ↦ absurd (
                        cc (
                          sym inside
                          ∙ ap (λ b. has b (lows ++ high)) ((==_iff a list.header).0 e)
                          ∙ valid.apart))
                  ])
                  x_out valid.distinct made-Chain;
            sorted = Sorted-insert it high compare lows below above valid.sorted;
            distinct = Distinct-insert it high lows x_out valid.distinct;
            apart =
                has-insert it high list.header lows
                ∙ rw (ne→==-false list.header x header_ne) valid.apart;
            heights =
                Heights-insert it high top lows pos top_level
                  (Heights-raise list.level top (lows ++ high) top_list valid.heights);
            level_pos = omega (arith, valid.level_pos, top_list);
            level_max = top_max;
            count = rw (length-insert it high lows) (omega (arith, valid.count));
          }
