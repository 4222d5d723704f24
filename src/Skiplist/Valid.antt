-- ===== src/Skiplist/Valid.antt =====
-- The invariant of skiplist/skiplist.c against the sorted list of its nodes, and what a search shows.
use Prim.Native.Nat.{Ordering}
use libakio.Prelude.{
  ℕ, zero, suc, ◌<◌, ◌≤◌, ◌≡◌, inl, inr, refl, ap, arith, Bool, true, false, List, [], ◌∷◌, ◌++◌,
  length, ltb, ok, wrap,
}
use libakio.Skiplist.{Skiplist, max_level, is_lt, is_eq, tests}
use libakio.Skiplist.Memory.{Ptr, Cells}
use libakio.Skiplist.Views.{fwd}
use libakio.Skiplist.Items.{Item, next_at, prev_at, tall, has, Distinct, Chain, IsHeader}
use libakio.Skiplist.Order.{IsOrder, Sorted, Above, Starts, from-Above}
use libakio.Skiplist.Stops.{IsStop, IsNext, stop-IsNext, fwd-prev}
use libakio.Skiplist.Walk.{Beyond, tests-null, tests-node, last_at}
use libakio.Skiplist.Links.{Spot}

module _ {K : Type 0} where
  -- every node stands in the lowest level, and none in one above `level`
  abbrev pub Heights : ℕ → List (Item K) → Type 0
  Heights level [] = Unit {0}
  Heights level (x ∷ xs) = ((0 < x.height) × (x.height ≤ level)) × Heights level xs

  pub Heights-left :
      (level : ℕ) (xs ys : List (Item K)) → Heights level (xs ++ ys) → Heights level xs
  Heights-left level [] ys h = tt
  Heights-left level (x ∷ xs) ys (here, h) = (here, Heights-left level xs ys h)

  pub Heights-right :
      (level : ℕ) (xs ys : List (Item K)) → Heights level (xs ++ ys) → Heights level ys
  Heights-right level [] ys h = h
  Heights-right level (x ∷ xs) ys (here, h) = Heights-right level xs ys h

  pub tall-Heights :
      (level j : ℕ) (xs : List (Item K)) → Heights level xs → level ≤ j → tall j xs ≡ false
  tall-Heights level j [] h le = refl
  tall-Heights level j (x ∷ xs) (here, h) le = ground (arith, here.1, tall-Heights level j xs h le)

  -- the memory holds a skiplist of these nodes
  pub record IsSkiplist (compare : K → K → Ordering) (list : Skiplist) (cells : Cells K)
      (items : List (Item K)) : Type 0 where
    pub header : IsHeader cells list.header max_level items
    pub chain : Chain cells items
    pub sorted : Sorted compare items
    pub distinct : Distinct items
    pub apart : has list.header items ≡ false
    pub heights : Heights list.level items
    pub level_pos : 0 < list.level
    pub level_max : list.level ≤ max_level
    pub count : list.len ≡ wrap 64 (length items)

  pub header-IsStop :
      (cells : Cells K) (header n : ℕ) (items : List (Item K))
      → n ≤ max_level
      → IsHeader cells header max_level items
      → IsStop cells header n items
  header-IsStop cells header n items le head = record {
    shape = _;
    at = head.at;
    room = omega (arith, head.high);
    links = λ j lt. head.links j (omega arith);
  }

  -- the last node of each level before the key has a pointer there, to the part behind
  pub prev-Spot :
      (cells : Cells K) (header j : ℕ) (lows high : List (Item K))
      → j < max_level
      → IsHeader cells header max_level (lows ++ high)
      → Chain cells (lows ++ high)
      → Spot cells (prev_at j header lows) j
  prev-Spot cells header j lows high lt head chain =
      let next : IsNext cells j header lows high =
        stop-IsNext cells j header lows high
          (header-IsStop cells header (suc j) (lows ++ high) (omega arith) head) chain in
      record { shape = next.stop.shape; at = next.stop.at; inside = omega (arith, next.stop.room) }

  pub prev-fwd :
      (cells : Cells K) (header j : ℕ) (lows high : List (Item K))
      → j < max_level
      → IsHeader cells header max_level (lows ++ high)
      → Chain cells (lows ++ high)
      → fwd cells (prev_at j header lows) j ≡ next_at j high
  prev-fwd cells header j lows high lt head chain =
      fwd-prev cells j header lows high (head.links j lt) chain

  pub next_at-first :
      (level : ℕ) (x : Item K) (xs : List (Item K))
      → Heights level (x ∷ xs)
      → next_at 0 (x ∷ xs) ≡ x.addr
  next_at-first level x xs h =
      let here : ltb 0 x.height ≡ true = ground (arith, h.0.0) in rw here refl

  module _ (compare : K → K → Ordering) where
    Above-Beyond :
        IsOrder compare
        → (key : K) (xs : List (Item K)) → Above compare key xs
        → Beyond compare key xs
    Above-Beyond order key [] above = tt
    Above-Beyond order key (x ∷ xs) (here, above) =
        (ap is_lt (order.flip_back key x.key here), Above-Beyond order key xs above)

    pub Starts-Beyond :
        IsOrder compare
        → (key : K) (high : List (Item K)) → Sorted compare high
        → Starts compare key high
        → Beyond compare key high
    Starts-Beyond order key [] sorted start = tt
    Starts-Beyond order key (x ∷ xs) sorted start = (
      start,
      elim (from-Above compare order key x xs sorted start) [
        | inl (eq, above) ↦ Above-Beyond order key xs above
        | inr (gt, above) ↦ Above-Beyond order key xs above.1
      ],
    )

    -- whether the part behind starts with the key
    abbrev pub is_first : K → List (Item K) → Bool
    is_first key [] = false
    is_first key (x ∷ xs) = is_eq (compare x.key key)

    pub tests-first :
        (cells : Cells K) (key : K) (level : ℕ) (high : List (Item K))
        → Heights level high
        → Chain cells high
        → tests compare is_eq cells (next_at 0 high) key ≡ ok (is_first key high)
    tests-first cells key level [] heights chain = tests-null compare is_eq cells key
    tests-first cells key level (x ∷ xs) heights (node, chain) =
        rw (next_at-first level x xs heights)
          (tests-node compare is_eq cells x.addr key x.key x.value node.room node.at)

    pub last_at-level :
        (cells : Cells K) (key : K) (high : List (Item K)) (beyond : Beyond compare key high)
        (level : ℕ) (x : Ptr) (lows : List (Item K))
        → 0 < level
        → last_at compare cells key high beyond level x lows ≡ prev_at 0 x lows
    last_at-level cells key high beyond zero x lows pos = absurd (omega arith)
    last_at-level cells key high beyond (suc level) x lows pos = refl
