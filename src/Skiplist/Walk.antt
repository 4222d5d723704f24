-- ===== src/Skiplist/Walk.antt =====
-- The loops of skiplist/skiplist.c that look for a key end at the last node before it.
use Prim.Native.Nat.{Ordering}
use libakio.Prelude.{
  ℕ, zero, suc, ◌<◌, ◌≤◌, ◌≡◌, inl, inr, refl, ap, ◌∙◌, arith, Bool, true, false, some, List, [],
  ◌∷◌, ◌++◌, length, get_or, set, length-set, get_or-set_self, get_or-set_ne, ltb, Bool-cases, ok,
  write-in,
}
use libakio.Skiplist.{is_lt, tests, walk, descend, seek}
use libakio.Skiplist.Memory.{Ptr, null, Cells, get_forward}
use libakio.Skiplist.Views.{Shape, IsAt, fwd, deref-run, get_forward-run}
use libakio.Skiplist.Items.{Item, next_at, prev_at, Chain}
use libakio.Skiplist.Order.{Below}
use libakio.Skiplist.Stops.{IsStop, IsNext, rest_at, stop-IsNext, rest_at-Below}

module _ {K : Type 0} (compare : K → K → Ordering) where
  pub tests-null :
      (wanted : Ordering → Bool) (cells : Cells K) (key : K)
      → tests compare wanted cells null key ≡ ok false
  unfolding tests
  tests-null wanted cells key = refl

  pub tests-node :
      (wanted : Ordering → Bool) (cells : Cells K) (p : Ptr) (key k : K) (value room : ℕ)
      → IsAt cells p (record { key = some k; value = value; room = room })
      → tests compare wanted cells p key ≡ ok (wanted (compare k key))
  unfolding tests
  tests-node wanted cells zero key k value room at = absurd (at.valid refl)
  tests-node wanted cells (suc q) key k value room at =
      let (n, (run, (has_key, has_value))) = deref-run cells (suc q) _ at in rw (run, has_key) refl

  -- nothing in the list is below the key
  abbrev pub Beyond : K → List (Item K) → Type 0
  Beyond key [] = Unit {0}
  Beyond key (x ∷ xs) = (is_lt (compare x.key key) ≡ false) × Beyond key xs

  tests-Beyond :
      (cells : Cells K) (key : K) (i : ℕ) (high : List (Item K))
      → Chain cells high
      → Beyond key high
      → tests compare is_lt cells (next_at i high) key ≡ ok false
  tests-Beyond cells key i [] chain beyond = tests-null is_lt cells key
  tests-Beyond cells key i (x ∷ xs) (node, chain) (here, beyond) =
      elim (Bool-cases (ltb i x.height)) [
        | inl t ↦
            rw t (tests-node is_lt cells x.addr key x.key x.value node.room node.at ∙ ap ok here)
        | inr t ↦ rw t (tests-Beyond cells key i xs chain beyond)
      ]

  walk-go :
      (fuel : ℕ) (cells : Cells K) (key : K) (i : ℕ) (x next : Ptr)
      → get_forward cells x i ≡ ok next
      → tests compare is_lt cells next key ≡ ok true
      → walk compare (suc fuel) cells key i x ≡ walk compare fuel cells key i next
  unfolding walk
  walk-go fuel cells key i x next got ahead = rw (got, ahead) refl

  walk-stop :
      (fuel : ℕ) (cells : Cells K) (key : K) (i : ℕ) (x next : Ptr)
      → get_forward cells x i ≡ ok next
      → tests compare is_lt cells next key ≡ ok false
      → walk compare (suc fuel) cells key i x ≡ ok x
  unfolding walk
  walk-stop fuel cells key i x next got ahead = rw (got, ahead) refl

  module _ (cells : Cells K) (key : K) (high : List (Item K)) (beyond : Beyond key high) where
    walk-run :
        (fuel i : ℕ) (x : Ptr) (s : Shape K) (lows : List (Item K))
        → length lows < fuel
        → IsAt cells x s
        → i < s.room
        → fwd cells x i ≡ next_at i (lows ++ high)
        → Chain cells (lows ++ high)
        → Below compare key lows
        → walk compare fuel cells key i x ≡ ok (prev_at i x lows)
    walk-run zero i x s lows enough at inside link chain below = absurd (omega arith)
    walk-run (suc fuel) i x s [] enough at inside link chain below =
        walk-stop fuel cells key i x (next_at i high)
          (get_forward-run cells x i s at inside ∙ ap ok link)
          (tests-Beyond cells key i high chain beyond)
    walk-run (suc fuel) i x s (p ∷ ps) enough at inside link (node, chain) (here, below) =
        elim (Bool-cases (ltb i p.height)) [
          | inl t ↦
              let lt : i < p.height = ground arith in
              let next : fwd cells x i ≡ p.addr = link ∙ rw t refl in
              walk-go fuel cells key i x p.addr (get_forward-run cells x i s at inside ∙ ap ok next)
                (tests-node is_lt cells p.addr key p.key p.value node.room node.at
                  ∙ ap (λ o. ok (is_lt o)) here)
              ∙ walk-run fuel i p.addr _ ps (omega arith) node.at (omega (arith, node.high))
                  (node.links i lt) chain below
              ∙ rw t refl
          | inr t ↦
              walk-run (suc fuel) i x s ps (omega arith) at inside (link ∙ rw t refl) chain below
              ∙ rw t refl
        ]

    stop-walk :
        (fuel i : ℕ) (x : Ptr) (lows : List (Item K))
        → length lows < fuel
        → IsStop cells x (suc i) (lows ++ high)
        → Chain cells (lows ++ high)
        → Below compare key lows
        → walk compare fuel cells key i x ≡ ok (prev_at i x lows)
    stop-walk fuel i x lows enough stop chain below =
        walk-run fuel i x stop.shape lows enough stop.at (omega (arith, stop.room))
          (stop.links i (omega arith)) chain below

    lower-IsStop :
        (i : ℕ) (x : Ptr) (xs : List (Item K)) → IsStop cells x (suc i) xs → IsStop cells x i xs
    lower-IsStop i x xs stop = record {
      shape = stop.shape;
      at = stop.at;
      room = omega (arith, stop.room);
      links = λ j lt. stop.links j (omega arith);
    }

    -- the node where the search ends, if it has any level to go along
    abbrev pub last_at : ℕ → Ptr → List (Item K) → Ptr
    last_at zero x lows = x
    last_at (suc i) x lows = prev_at 0 x lows

    last-next :
        (i : ℕ) (x : Ptr) (lows : List (Item K))
        → IsNext cells i x lows high
        → last_at i (prev_at i x lows) (rest_at i lows) ≡ prev_at 0 x lows
    last-next zero x lows next = refl
    last-next (suc i) x lows next = next.same 0 (omega arith)

    pub seek-run :
        (fuel i : ℕ) (x : Ptr) (lows : List (Item K))
        → length lows < fuel
        → IsStop cells x i (lows ++ high)
        → Chain cells (lows ++ high)
        → Below compare key lows
        → seek compare fuel cells key i x ≡ ok (last_at i x lows)
    unfolding seek
    seek-run fuel zero x lows enough stop chain below = refl
    seek-run fuel (suc i) x lows enough stop chain below =
        let next : IsNext cells i x lows high = stop-IsNext cells i x lows high stop chain in
        rw (stop-walk fuel i x lows enough stop chain below) (
          seek-run fuel i (prev_at i x lows) (rest_at i lows) (omega (arith, next.shorter))
            (lower-IsStop i (prev_at i x lows) (rest_at i lows ++ high) next.stop) next.chain
            (rest_at-Below compare key i lows below)
          ∙ ap ok (last-next i x lows next))

    -- What the outer loop leaves: the last node, and the last node of each level in the array.
    pub record IsDescent (i : ℕ) (x : Ptr) (lows : List (Item K)) (updates updates' : List Ptr)
        : Type 0 where
      pub size : length updates' ≡ length updates
      pub found : (j : ℕ) → j < i → get_or updates' j null ≡ prev_at j x lows
      pub others : (j : ℕ) → i ≤ j → get_or updates' j null ≡ get_or updates j null

    IsDescent-step :
        (i : ℕ) (x : Ptr) (lows : List (Item K)) (updates updates' : List Ptr)
        → i < length updates
        → IsNext cells i x lows high
        → IsDescent i
            (prev_at i x lows)
            (rest_at i lows)
            (set updates i (prev_at i x lows))
            updates'
        → IsDescent (suc i) x lows updates updates'
    IsDescent-step i x lows updates updates' inside next done = record {
      size = done.size ∙ length-set updates i (prev_at i x lows);
      found = λ j lt. elim (Bool-cases (ltb j i)) [
        | inl less ↦ done.found j (ground arith) ∙ next.same j (ground arith)
        | inr top ↦
            let eq : j ≡ i = ground arith in
            rw eq (
              done.others i (omega arith)
              ∙ get_or-set_self updates i (prev_at i x lows) null inside)
      ];
      others = λ j le.
          done.others j (omega arith)
          ∙ get_or-set_ne updates i j (prev_at i x lows) null (λ e. omega (arith, e));
    }

    pub descend-run :
        (fuel i : ℕ) (x : Ptr) (lows : List (Item K)) (updates : List Ptr)
        → length lows < fuel
        → i ≤ length updates
        → IsStop cells x i (lows ++ high)
        → Chain cells (lows ++ high)
        → Below compare key lows
        → (updates' : List Ptr) × ((descend compare fuel cells key i x updates
              ≡ ok (last_at i x lows, updates'))
            × IsDescent i x lows updates updates')
    unfolding descend
    descend-run fuel zero x lows updates enough inside stop chain below = (
      updates,
      (refl, record { size = refl; found = λ j lt. absurd (omega arith); others = λ j le. refl }),
    )
    descend-run fuel (suc i) x lows updates enough inside stop chain below =
        let next : IsNext cells i x lows high = stop-IsNext cells i x lows high stop chain in
        let x' : Ptr = prev_at i x lows in
        let (updates', (run, done)) =
          descend-run fuel i x' (rest_at i lows) (set updates i x') (omega (arith, next.shorter))
            (rw (length-set updates i x') (omega arith))
            (lower-IsStop i x' (rest_at i lows ++ high) next.stop) next.chain
            (rest_at-Below compare key i lows below) in
        (
          updates',
          (
            rw
                (
                  stop-walk fuel i x lows enough stop chain below,
                  write-in updates i x' (omega arith),
                )
                (run ∙ ap (λ (p : Ptr). ok (p, updates')) (last-next i x lows next)),
            IsDescent-step i x lows updates updates' (omega arith) next done,
          ),
        )
