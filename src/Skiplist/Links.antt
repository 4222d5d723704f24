-- ===== src/Skiplist/Links.antt =====
-- The loops of skiplist/skiplist.c that link a node into its levels and take it out of them.
use libakio.Prelude.{
  ℕ, zero, suc, ◌+◌, ◌<◌, ◌≡◌, ◌≢◌, inl, inr, refl, sym, ◌∙◌, arith, Bool, true, false, ◌&&◌, List,
  ltb, leb, ◌==◌, ==_iff, ne→==-false, Bool-cases, if◌then◌else◌, ok, read,
}
use libakio.Skiplist.{link}
use libakio.Skiplist.Memory.{Ptr, Cells, get_forward, set_forward}
use libakio.Skiplist.Views.{
  Shape, IsAt, IsWrite, shape, fwd, get_forward-run, set_forward-run, IsAt-kept,
}

-- the level is one of `rounds` from `i`
abbrev pub in_range : ℕ → ℕ → ℕ → Bool
in_range i rounds j = leb i j && ltb j (i + rounds)

pub if_and_true : (b : Bool) (u v : Ptr) → (if b && true then u else v) ≡ (if b then u else v)
if_and_true true u v = refl
if_and_true false u v = refl

module _ {K : Type 0} where
  -- a node that has a pointer at the level
  pub record Spot (cells : Cells K) (p : Ptr) (j : ℕ) : Type 0 where
    pub shape : Shape K
    pub at : IsAt cells p shape
    pub inside : j < shape.room

  pub Spot-kept :
      (cells cells' : Cells K) (p : Ptr) (j : ℕ)
      → shape cells' p ≡ shape cells p
      → Spot cells p j
      → Spot cells' p j
  Spot-kept cells cells' p j same spot = record {
    shape = spot.shape;
    at = IsAt-kept cells cells' p spot.shape same spot.at;
    inside = spot.inside;
  }

  pub Spot-get :
      (cells : Cells K) (p : Ptr) (j : ℕ)
      → Spot cells p j
      → get_forward cells p j ≡ ok (fwd cells p j)
  Spot-get cells p j spot = get_forward-run cells p j spot.shape spot.at spot.inside

  pub Spot-set :
      (cells : Cells K) (p : Ptr) (j : ℕ) (q : Ptr)
      → Spot cells p j
      → (cells' : Cells K) × ((set_forward cells p j q ≡ ok cells') × IsWrite cells p j q cells')
  Spot-set cells p j q spot = set_forward-run cells p j q spot.shape spot.at spot.inside

  module _ (x : Ptr) (at : ℕ → Ptr) where
    -- The memory after `x` has been linked at a range of levels behind `at`.
    pub record IsLinked (i rounds : ℕ) (cells cells' : Cells K) : Type 0 where
      pub shapes : (p : Ptr) → shape cells' p ≡ shape cells p
      pub new : (j : ℕ) → in_range i rounds j ≡ true → fwd cells' x j ≡ fwd cells (at j) j
      pub kept : (j : ℕ) → in_range i rounds j ≡ false → fwd cells' x j ≡ fwd cells x j
      pub others :
          (p : Ptr) (j : ℕ)
          → p ≢ x
          → fwd cells' p j ≡ (if in_range i rounds j && (p == at j) then x else fwd cells p j)

    -- one round
    record IsRound (i : ℕ) (cells cells' : Cells K) : Type 0 where
      shapes : (p : Ptr) → shape cells' p ≡ shape cells p
      new : fwd cells' x i ≡ fwd cells (at i) i
      others :
          (p : Ptr) (j : ℕ)
          → p ≢ x
          → fwd cells' p j ≡ (if (p == at i) && (j == i) then x else fwd cells p j)
      higher : (j : ℕ) → j ≢ i → fwd cells' x j ≡ fwd cells x j

    IsRound-writes :
        (i : ℕ) (cells cells1 cells2 : Cells K)
        → at i ≢ x
        → IsWrite cells x i (fwd cells (at i) i) cells1
        → IsWrite cells1 (at i) i x cells2
        → IsRound i cells cells2
    IsRound-writes i cells cells1 cells2 apart w1 w2 = record {
      shapes = λ p. w2.shapes p ∙ w1.shapes p;
      new =
          let miss : (x == at i) ≡ false = ne→==-false x (at i) (λ e. apart (sym e)) in
          let hit : (x == x) ≡ true = ground arith in
          let level : (i == i) ≡ true = ground arith in
          w2.pointers x i ∙ rw (miss) (w1.pointers x i ∙ rw (hit, level) refl);
      others = λ p j ne.
          let miss : (p == x) ≡ false = ne→==-false p x ne in
          w2.pointers p j ∙ rw (w1.pointers p j, miss) refl;
      higher = λ j ne.
          let miss : (j == i) ≡ false = ne→==-false j i ne in
          let apart' : (x == at i) ≡ false = ne→==-false x (at i) (λ e. apart (sym e)) in
          w2.pointers x j ∙ rw (apart', w1.pointers x j) (ground arith);
    }

    link-step :
        (rounds i : ℕ) (updates : List Ptr) (cells cells1 cells2 : Cells K)
        → read updates i ≡ ok (at i)
        → get_forward cells (at i) i ≡ ok (fwd cells (at i) i)
        → set_forward cells x i (fwd cells (at i) i) ≡ ok cells1
        → set_forward cells1 (at i) i x ≡ ok cells2
        → link (suc rounds) i x updates cells ≡ link rounds (i + 1) x updates cells2
    unfolding link
    link-step rounds i updates cells cells1 cells2 r g s1 s2 = rw (r, g, s1, s2) refl

    next_round :
        (rounds i : ℕ) (cells cells2 cells' : Cells K)
        → ((j : ℕ) → at j ≢ x)
        → IsRound i cells cells2
        → IsLinked (i + 1) rounds cells2 cells'
        → IsLinked i (suc rounds) cells cells'
    next_round rounds i cells cells2 cells' apart round rest = record {
      shapes = λ p. rest.shapes p ∙ round.shapes p;
      new = λ j inside. elim (Bool-cases (in_range (i + 1) rounds j)) [
        | inl later ↦
            let ne : (j == i) ≡ false = ground arith in
            let miss : ((at j == at i) && (j == i)) ≡ false = ground arith in
            rest.new j later ∙ round.others (at j) j (apart j) ∙ rw miss refl
        | inr first ↦
            let eq : j ≡ i = ground arith in
            let outside : in_range (i + 1) rounds i ≡ false = ground arith in
            rw eq (rest.kept i outside ∙ round.new)
      ];
      kept = λ j outside. rest.kept j (ground arith) ∙ round.higher j (λ e. ground arith);
      others = λ p j ne. elim (Bool-cases (j == i)) [
        | inl same ↦
            let eq : j ≡ i = (==_iff j i).0 same in
            let outside : in_range (i + 1) rounds i ≡ false = ground arith in
            let inside : in_range i (suc rounds) i ≡ true = ground arith in
            let level : (i == i) ≡ true = ground arith in
            rw eq (
              rest.others p i ne
              ∙ rw (outside, inside)
                  (round.others p i ne ∙ rw level (if_and_true (p == at i) x (fwd cells p i))))
        | inr other ↦
            let miss : ((p == at i) && (j == i)) ≡ false = ground arith in
            let old : fwd cells2 p j ≡ fwd cells p j = round.others p j ne ∙ rw miss refl in
            let range : in_range (i + 1) rounds j ≡ in_range i (suc rounds) j = ground arith in
            rest.others p j ne ∙ rw (range, old) refl
      ];
    }

    -- What the loop needs of the nodes that it writes to.
    pub record IsReady (i rounds : ℕ) (updates : List Ptr) (cells : Cells K) : Type 0 where
      pub apart : (j : ℕ) → at j ≢ x
      pub entries : (j : ℕ) → in_range i rounds j ≡ true → read updates j ≡ ok (at j)
      pub befores : (j : ℕ) → in_range i rounds j ≡ true → Spot cells (at j) j
      pub news : (j : ℕ) → in_range i rounds j ≡ true → Spot cells x j

    pub link-run :
        (rounds i : ℕ) (updates : List Ptr) (cells : Cells K)
        → IsReady i rounds updates cells
        → (cells' : Cells K) × ((link rounds i x updates cells ≡ ok cells')
            × IsLinked i rounds cells cells')
    unfolding link
    link-run zero i updates cells ready = (
      cells,
      (
        refl,
        record {
          shapes = λ p. refl;
          new = λ j inside. absurd (ground arith);
          kept = λ j outside. refl;
          others = λ p j ne. let miss : in_range i zero j ≡ false = ground arith in rw miss refl;
        },
      ),
    )
    link-run (suc rounds) i updates cells ready =
        let first : in_range i (suc rounds) i ≡ true = ground arith in
        let (cells1, (set1, w1)) = Spot-set cells x i (fwd cells (at i) i) (ready.news i first) in
        let (cells2, (set2, w2)) =
          Spot-set cells1 (at i) i x
            (Spot-kept cells cells1 (at i) i (w1.shapes (at i)) (ready.befores i first)) in
        let round : IsRound i cells cells2 =
          IsRound-writes i cells cells1 cells2 (ready.apart i) w1 w2 in
        let (cells', (run, done)) = link-run rounds (i + 1) updates cells2 (record {
          apart = ready.apart;
          entries = λ j inside. ready.entries j (ground arith);
          befores = λ j inside.
              Spot-kept cells cells2 (at j) j (round.shapes (at j))
                (ready.befores j (ground arith));
          news =
              λ j inside. Spot-kept cells cells2 x j (round.shapes x) (ready.news j (ground arith));
        }) in
        (
          cells',
          (
            link-step rounds i updates cells cells1 cells2 (ready.entries i first)
                  (Spot-get cells (at i) i (ready.befores i first)) set1 set2
                ∙ run,
            next_round rounds i cells cells2 cells' ready.apart round done,
          ),
        )
