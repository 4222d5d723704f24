-- ===== src/Skiplist/Stops.antt =====
-- Where a search in skiplist/skiplist.c stands: at a node before the part of a list that it has yet
-- to pass, `lows`, and the part behind the key, `high`.
use libakio.Prelude.{
  ℕ, suc, ◌<◌, ◌≤◌, ◌≡◌, inl, inr, refl, ◌∙◌, arith, true, false, List, [], ◌∷◌, ◌++◌, length, ltb,
  Bool-cases, if◌then◌else◌,
}
use Prim.Native.Nat.{Ordering}
use libakio.Skiplist.Memory.{Ptr, Cells}
use libakio.Skiplist.Views.{Shape, IsAt, fwd}
use libakio.Skiplist.Items.{Item, next_at, prev_at, tall, prev_at-short, Chain, IsNode}
use libakio.Skiplist.Order.{Below}

module _ {K : Type 0} where
  -- At the levels below `levels` the node `x` points into `lows ++ high`.
  pub record IsStop (cells : Cells K) (x : Ptr) (levels : ℕ) (xs : List (Item K)) : Type 0 where
    pub shape : Shape K
    pub at : IsAt cells x shape
    pub room : levels ≤ shape.room
    pub links : (j : ℕ) → j < levels → fwd cells x j ≡ next_at j xs

  -- what is behind the last node of a level
  abbrev pub rest_at : ℕ → List (Item K) → List (Item K)
  rest_at i [] = []
  rest_at i (x ∷ xs) = if tall i xs then rest_at i xs else if ltb i x.height then xs else x ∷ xs

  IsStop-node :
      (cells : Cells K) (i : ℕ) (x : Item K) (xs : List (Item K))
      → i < x.height
      → IsNode cells x xs
      → IsStop cells x.addr (suc i) xs
  IsStop-node cells i x xs lt node = record {
    shape = _;
    at = node.at;
    room = omega (arith, node.high);
    links = λ j j_lt. node.links j (omega arith);
  }

  tall-IsStop :
      (cells : Cells K) (i : ℕ) (d : Ptr) (lows high : List (Item K))
      → tall i lows ≡ true
      → Chain cells (lows ++ high)
      → IsStop cells (prev_at i d lows) (suc i) (rest_at i lows ++ high)
  tall-IsStop cells i d [] high e chain = absurd (cc e)
  tall-IsStop cells i d (x ∷ xs) high e (node, chain) = elim (Bool-cases (tall i xs)) [
    | inl more ↦
        rw more (tall-IsStop cells i (if ltb i x.height then x.addr else d) xs high more chain)
    | inr last ↦
        let here : ltb i x.height ≡ true = ground arith in
        rw (last, here, prev_at-short i x.addr xs last)
          (IsStop-node cells i x (xs ++ high) (ground arith) node)
  ]

  -- A lower level goes on from where a higher one stopped.
  tall-prev :
      (i j : ℕ) (d e : Ptr) (lows : List (Item K))
      → tall i lows ≡ true
      → j ≤ i
      → prev_at j (prev_at i e lows) (rest_at i lows) ≡ prev_at j d lows
  tall-prev i j d e [] t le = absurd (cc t)
  tall-prev i j d e (x ∷ xs) t le = elim (Bool-cases (tall i xs)) [
    | inl more ↦ rw more (
        tall-prev i j (if ltb j x.height then x.addr else d) (if ltb i x.height then x.addr else e)
          xs more le)
    | inr last ↦
        let here : ltb i x.height ≡ true = ground arith in
        let lower : ltb j x.height ≡ true = ground arith in
        rw (last, here, lower, prev_at-short i x.addr xs last) refl
  ]

  rest_at-short : (i : ℕ) (lows : List (Item K)) → tall i lows ≡ false → rest_at i lows ≡ lows
  rest_at-short i [] e = refl
  rest_at-short i (x ∷ xs) e =
      let here : ltb i x.height ≡ false = ground arith in
      let none_left : tall i xs ≡ false = ground arith in rw (none_left, here) refl

  rest_at-Chain :
      (cells : Cells K) (i : ℕ) (lows high : List (Item K))
      → Chain cells (lows ++ high)
      → Chain cells (rest_at i lows ++ high)
  rest_at-Chain cells i [] high chain = chain
  rest_at-Chain cells i (x ∷ xs) high (node, chain) = elim (Bool-cases (tall i xs)) [
    | inl more ↦ rw more (rest_at-Chain cells i xs high chain)
    | inr last ↦ elim (Bool-cases (ltb i x.height)) [
      | inl here ↦ rw (last, here) chain
      | inr low ↦ rw (last, low) (node, chain)
    ]
  ]

  rest_at-length : (i : ℕ) (lows : List (Item K)) → length (rest_at i lows) ≤ length lows
  rest_at-length i [] = omega arith
  rest_at-length i (x ∷ xs) = ground (arith, rest_at-length i xs)

  -- Where the walk along a level stops, for the levels below.
  pub record IsNext (cells : Cells K) (i : ℕ) (x : Ptr) (lows high : List (Item K)) : Type 0 where
    pub stop : IsStop cells (prev_at i x lows) (suc i) (rest_at i lows ++ high)
    pub chain : Chain cells (rest_at i lows ++ high)
    pub shorter : length (rest_at i lows) ≤ length lows
    pub same : (j : ℕ) → j ≤ i → prev_at j (prev_at i x lows) (rest_at i lows) ≡ prev_at j x lows

  pub stop-IsNext :
      (cells : Cells K) (i : ℕ) (x : Ptr) (lows high : List (Item K))
      → IsStop cells x (suc i) (lows ++ high)
      → Chain cells (lows ++ high)
      → IsNext cells i x lows high
  stop-IsNext cells i x lows high stop chain = record {
    stop = elim (Bool-cases (tall i lows)) [
      | inl t ↦ tall-IsStop cells i x lows high t chain
      | inr t ↦ rw (prev_at-short i x lows t, rest_at-short i lows t) stop
    ];
    chain = rest_at-Chain cells i lows high chain;
    shorter = rest_at-length i lows;
    same = λ j le. elim (Bool-cases (tall i lows)) [
      | inl t ↦ tall-prev i j x x lows t le
      | inr t ↦ rw (prev_at-short i x lows t, rest_at-short i lows t) refl
    ];
  }

  -- The last node of a level points into the part behind.
  pub fwd-prev :
      (cells : Cells K) (j : ℕ) (x : Ptr) (lows high : List (Item K))
      → fwd cells x j ≡ next_at j (lows ++ high)
      → Chain cells (lows ++ high)
      → fwd cells (prev_at j x lows) j ≡ next_at j high
  fwd-prev cells j x [] high e chain = e
  fwd-prev cells j x (p ∷ ps) high e (node, chain) = elim (Bool-cases (ltb j p.height)) [
    | inl t ↦ rw t (fwd-prev cells j p.addr ps high (node.links j (ground arith)) chain)
    | inr t ↦ rw t (fwd-prev cells j x ps high (e ∙ rw t refl) chain)
  ]

  pub rest_at-Below :
      (compare : K → K → Ordering) (key : K) (i : ℕ) (lows : List (Item K))
      → Below compare key lows
      → Below compare key (rest_at i lows)
  rest_at-Below compare key i [] below = tt
  rest_at-Below compare key i (x ∷ xs) (here, below) = elim (Bool-cases (tall i xs)) [
    | inl more ↦ rw more (rest_at-Below compare key i xs below)
    | inr last ↦ elim (Bool-cases (ltb i x.height)) [
      | inl t ↦ rw (last, t) below
      | inr t ↦ rw (last, t) (here, below)
    ]
  ]
