-- ===== src/Skiplist/Search.antt =====
-- skiplist_search of skiplist/skiplist.c finds what the list of nodes has under the key.
use Prim.Native.Nat.{Ordering}
use libakio.Prelude.{
  ℕ, ◌<◌, ◌≡◌, inl, inr, refl, sym, ap, ◌∙◌, arith, true, false, Option, none, some, List, [], ◌∷◌,
  ◌++◌, length, length-append, Bool-cases, ok, ◌>>=◌,
}
use libakio.Skiplist.{Skiplist, is_eq, tests, seek, search_key, search}
use libakio.Skiplist.Memory.{Ptr, null, Cells, get_forward, deref}
use libakio.Skiplist.Views.{deref-run, get_forward-run}
use libakio.Skiplist.Items.{Item, next_at, prev_at, Chain, Chain-right}
use libakio.Skiplist.Order.{
  IsOrder, Below, Starts, before, from, before-from, before-Below, from-Starts, Sorted-append,
  lookup, first_value, lookup-first_value,
}
use libakio.Skiplist.Walk.{Beyond, seek-run}
use libakio.Skiplist.Links.{Spot}
use libakio.Skiplist.Valid.{
  IsSkiplist, Heights, Heights-right, header-IsStop, prev-Spot, prev-fwd, next_at-first,
  Starts-Beyond, tests-first, last_at-level,
}

-- a value, or NULL
abbrev pub or_null : Option ℕ → ℕ
or_null none = 0
or_null (some value) = value

module _ {K : Type 0} (compare : K → K → Ordering) (order : IsOrder compare) where
  search-hit :
      (fuel : ℕ) (list : Skiplist) (cells : Cells K) (key : K) (x next : Ptr)
      → seek compare fuel cells key list.level list.header ≡ ok x
      → get_forward cells x 0 ≡ ok next
      → tests compare is_eq cells next key ≡ ok true
      → search_key compare fuel list cells key ≡ (deref cells next >>= λ n. ok n.value)
  unfolding search_key
  search-hit fuel list cells key x next s g t = rw (s, g, t) refl

  search-miss :
      (fuel : ℕ) (list : Skiplist) (cells : Cells K) (key : K) (x next : Ptr)
      → seek compare fuel cells key list.level list.header ≡ ok x
      → get_forward cells x 0 ≡ ok next
      → tests compare is_eq cells next key ≡ ok false
      → search_key compare fuel list cells key ≡ ok 0
  unfolding search_key
  search-miss fuel list cells key x next s g t = rw (s, g, t) refl

  -- the value of the node where a search ends, if it has the key
  search-found :
      (fuel : ℕ) (list : Skiplist) (cells : Cells K) (key : K) (x : Ptr) (high : List (Item K))
      → seek compare fuel cells key list.level list.header ≡ ok x
      → get_forward cells x 0 ≡ ok (next_at 0 high)
      → Heights list.level high
      → Chain cells high
      → search_key compare fuel list cells key ≡ ok (or_null (first_value compare order key high))
  search-found fuel list cells key x [] s g heights chain =
      search-miss fuel list cells key x null s g
        (tests-first compare cells key list.level [] heights chain)
  search-found fuel list cells key x (p ∷ ps) s g heights (node, chain) =
      let next : next_at 0 (p ∷ ps) ≡ p.addr = next_at-first list.level p ps heights in
      let test = tests-first compare cells key list.level (p ∷ ps) heights (node, chain) in
      let (n, (run, (has_key, has_value))) = deref-run cells p.addr _ node.at in
      elim (Bool-cases (is_eq (compare p.key key))) [
        | inl hit ↦
            search-hit fuel list cells key x (next_at 0 (p ∷ ps)) s g (test ∙ ap ok hit)
            ∙ rw (next, run, has_value, hit) refl
        | inr miss ↦
            search-miss fuel list cells key x (next_at 0 (p ∷ ps)) s g (test ∙ ap ok miss)
            ∙ rw miss refl
      ]

  search-split :
      (fuel : ℕ) (list : Skiplist) (cells : Cells K) (key : K) (lows high : List (Item K))
      → IsSkiplist compare list cells (lows ++ high)
      → length (lows ++ high) < fuel
      → Below compare key lows
      → Starts compare key high
      → search_key compare fuel list cells key ≡ ok (or_null (first_value compare order key high))
  search-split fuel list cells key lows high valid enough below start =
      let beyond : Beyond compare key high =
        Starts-Beyond compare order key high (Sorted-append compare lows high valid.sorted).1
          start in
      let run =
        seek-run compare cells key high beyond fuel list.level list.header lows
          (omega (arith, length-append lows high))
          (header-IsStop cells list.header list.level (lows ++ high) valid.level_max valid.header)
          valid.chain below in
      let spot : Spot cells (prev_at 0 list.header lows) 0 =
        prev-Spot cells list.header 0 lows high (omega arith) valid.header valid.chain in
      search-found fuel list cells key (prev_at 0 list.header lows) high
        (run
          ∙ ap ok (
              last_at-level compare cells key high beyond list.level list.header lows
                valid.level_pos))
        (get_forward-run cells (prev_at 0 list.header lows) 0 spot.shape spot.at spot.inside
          ∙ ap ok (prev-fwd cells list.header 0 lows high (omega arith) valid.header valid.chain))
        (Heights-right list.level lows high valid.heights) (Chain-right cells lows high valid.chain)

  -- With compare a total order, skiplist_search on a well-formed list returns the value of the
  -- node with the key, or NULL if no node has it, within as many rounds a level as the list has
  -- nodes.
  pub search-lookup :
      (fuel : ℕ) (list : Skiplist) (cells : Cells K) (items : List (Item K)) (key : K)
      → IsSkiplist compare list cells items
      → length items < fuel
      → search compare fuel (some list) cells (some key) ≡ ok (or_null (lookup compare key items))
  unfolding search
  search-lookup fuel list cells items key valid enough =
      let split : before compare key items ++ from compare key items ≡ items =
        before-from compare key items in
      search-split fuel list cells key (before compare key items) (from compare key items)
        (rw split valid) (rw split enough) (before-Below compare key items)
        (from-Starts compare key items)
      ∙ ap (λ (o : Option ℕ). ok (or_null o))
          (sym (lookup-first_value compare order key items valid.sorted))
