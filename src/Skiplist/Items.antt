-- ===== src/Skiplist/Items.antt =====
-- The nodes of a skiplist as a list: what stands at each level, and the memory that holds it.
use libakio.Prelude.{
  ℕ, ◌<◌, ◌≤◌, ◌≡◌, inl, inr, refl, ◌∙◌, arith, Bool, true, false, ◌||◌, none, some, List, [], ◌∷◌,
  ◌++◌, ltb, ◌==◌, Bool-cases, if◌then◌else◌,
}
use libakio.Skiplist.Memory.{Ptr, null, Cells}
use libakio.Skiplist.Views.{IsAt, shape, fwd, IsAt-kept}

-- a node and the number of levels that it stands in
pub record Item (K : Type 0) : Type 0 where
  pub addr : Ptr
  pub key : K
  pub value : ℕ
  pub height : ℕ

module _ {K : Type 0} where
  -- the first node of a level, or NULL
  abbrev pub next_at : ℕ → List (Item K) → Ptr
  next_at i [] = null
  next_at i (x ∷ xs) = if ltb i x.height then x.addr else next_at i xs

  -- the last node of a level, or a node before the list
  abbrev pub prev_at : ℕ → Ptr → List (Item K) → Ptr
  prev_at i d [] = d
  prev_at i d (x ∷ xs) = prev_at i (if ltb i x.height then x.addr else d) xs

  abbrev pub tall : ℕ → List (Item K) → Bool
  tall i [] = false
  tall i (x ∷ xs) = ltb i x.height || tall i xs

  abbrev pub has : Ptr → List (Item K) → Bool
  has a [] = false
  has a (x ∷ xs) = (a == x.addr) || has a xs

  abbrev pub Distinct : List (Item K) → Type 0
  Distinct [] = Unit {0}
  Distinct (x ∷ xs) = (has x.addr xs ≡ false) × Distinct xs

  pub next_at-append :
      (i : ℕ) (xs ys : List (Item K))
      → next_at i (xs ++ ys) ≡ (if tall i xs then next_at i xs else next_at i ys)
  next_at-append i [] ys = refl
  next_at-append i (x ∷ xs) ys = elim (Bool-cases (ltb i x.height)) [
    | inl e ↦ rw e refl
    | inr e ↦ rw e (next_at-append i xs ys)
  ]

  pub prev_at-short :
      (i : ℕ) (d : Ptr) (xs : List (Item K)) → tall i xs ≡ false → prev_at i d xs ≡ d
  prev_at-short i d [] e = refl
  prev_at-short i d (x ∷ xs) e =
      let low : ltb i x.height ≡ false = ground arith in
      rw low (prev_at-short i d xs (ground arith))

  pub prev_at-has :
      (i : ℕ) (d : Ptr) (xs : List (Item K)) → tall i xs ≡ true → has (prev_at i d xs) xs ≡ true
  prev_at-has i d [] e = absurd (cc e)
  prev_at-has i d (x ∷ xs) e = elim (Bool-cases (tall i xs)) [
    | inl more ↦ ground (arith, prev_at-has i (if ltb i x.height then x.addr else d) xs more)
    | inr last ↦
        let here : ltb i x.height ≡ true = ground arith in
        rw (here, prev_at-short i x.addr xs last) (ground arith)
  ]

  -- the memory holds the node, with pointers to the nodes behind it
  pub record IsNode (cells : Cells K) (x : Item K) (xs : List (Item K)) : Type 0 where
    pub room : ℕ
    pub at : IsAt cells x.addr (record { key = some x.key; value = x.value; room = room })
    pub high : x.height ≤ room
    pub links : (i : ℕ) → i < x.height → fwd cells x.addr i ≡ next_at i xs

  abbrev pub Chain : Cells K → List (Item K) → Type 0
  Chain cells [] = Unit {0}
  Chain cells (x ∷ xs) = IsNode cells x xs × Chain cells xs

  -- the header holds pointers to the first node of each level
  pub record IsHeader (cells : Cells K) (header : Ptr) (levels : ℕ) (xs : List (Item K))
      : Type 0 where
    pub value : ℕ
    pub room : ℕ
    pub at : IsAt cells header (record { key = none; value = value; room = room })
    pub high : levels ≤ room
    pub links : (i : ℕ) → i < levels → fwd cells header i ≡ next_at i xs

  -- A change of the memory outside the nodes keeps them.
  pub Chain-kept :
      (cells cells' : Cells K) (xs : List (Item K))
      → ((a : Ptr) → has a xs ≡ true → shape cells' a ≡ shape cells a)
      → ((a : Ptr) (i : ℕ) → has a xs ≡ true → fwd cells' a i ≡ fwd cells a i)
      → Chain cells xs
      → Chain cells' xs
  Chain-kept cells cells' [] shapes pointers chain = tt
  Chain-kept cells cells' (x ∷ xs) shapes pointers (node, chain) =
      let here : has x.addr (x ∷ xs) ≡ true = ground arith in
      (
        record {
          room = node.room;
          at = IsAt-kept cells cells' x.addr _ (shapes x.addr here) node.at;
          high = node.high;
          links = λ i lt. pointers x.addr i here ∙ node.links i lt;
        },
        Chain-kept cells cells' xs (λ a e. shapes a (ground arith))
            (λ a i e. pointers a i (ground arith)) chain,
      )

  pub Chain-right :
      (cells : Cells K) (xs ys : List (Item K)) → Chain cells (xs ++ ys) → Chain cells ys
  Chain-right cells [] ys chain = chain
  Chain-right cells (x ∷ xs) ys chain = Chain-right cells xs ys chain.1

  pub has-append : (a : Ptr) (xs ys : List (Item K)) → has a (xs ++ ys) ≡ (has a xs || has a ys)
  has-append a [] ys = refl
  has-append a (x ∷ xs) ys = ground (arith, has-append a xs ys)
