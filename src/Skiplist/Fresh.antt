-- ===== src/Skiplist/Fresh.antt =====
-- _create_node of skiplist/skiplist.c: a new node, which leaves the list as it was.
use libakio.Prelude.{
  ℕ, ◌≡◌, ◌≢◌, inl, inr, refl, sym, ap, ◌∙◌, arith, true, false, none, some, List, [], ◌∷◌, length,
  ltb, ◌==◌, ==_iff, ne→==-false, Bool-cases, if◌then◌else◌,
}
use libakio.Skiplist.{max_level}
use libakio.Skiplist.Memory.{Ptr, null, Cells, update}
use libakio.Skiplist.Views.{IsAt, shape, shape_of, pointer_of}
use libakio.Skiplist.Items.{Item, prev_at, has, Chain, IsHeader, Chain-kept}

module _ {K : Type 0} where
  -- the node that `_create_node` makes at `x`
  abbrev pub with_node : Cells K → Ptr → K → ℕ → List Ptr → Cells K
  with_node cells x key value forward =
      update cells x (some (record { key = some key; value = value; forward = forward }))

  pub with_node-other :
      (cells : Cells K) (x : Ptr) (key : K) (value : ℕ) (forward : List Ptr) (a : Ptr)
      → a ≢ x
      → with_node cells x key value forward a ≡ cells a
  unfolding update
  with_node-other cells x key value forward a ne = rw (ne→==-false a x ne) refl

  pub with_node-IsAt :
      (cells : Cells K) (x : Ptr) (key : K) (value : ℕ) (forward : List Ptr)
      → x ≢ null
      → IsAt
          (with_node cells x key value forward)
          x
          (record { key = some key; value = value; room = length forward })
  unfolding update
  with_node-IsAt cells x key value forward ne = record {
    valid = ne;
    here = let hit : (x == x) ≡ true = ground arith in rw hit refl;
  }

  -- Nothing of the list stands at an address that is free.
  pub free-out :
      (cells : Cells K) (x : Ptr) (xs : List (Item K))
      → cells x ≡ none
      → Chain cells xs
      → has x xs ≡ false
  free-out cells x [] free chain = refl
  free-out cells x (p ∷ ps) free (node, chain) = elim (Bool-cases (x == p.addr)) [
    | inr ne ↦ rw ne (free-out cells x ps free chain)
    | inl e ↦
        let eq : x ≡ p.addr = (==_iff x p.addr).0 e in
        absurd (cc (ap (shape cells) eq ∙ node.at.here, ap (λ o. shape_of o) free))
  ]

  pub prev_at-apart :
      (x : Ptr) (j : ℕ) (d : Ptr) (xs : List (Item K))
      → d ≢ x
      → has x xs ≡ false
      → prev_at j d xs ≢ x
  prev_at-apart x j d [] ne out = ne
  prev_at-apart x j d (p ∷ ps) ne out =
      prev_at-apart x j (if ltb j p.height then p.addr else d) ps
        (elim (Bool-cases (ltb j p.height)) [ inl t ↦ rw t (λ e. ground arith) | inr t ↦ rw t ne ])
        (ground arith)

  -- A new node leaves the others as they were.
  pub with_node-Chain :
      (cells : Cells K) (x : Ptr) (key : K) (value : ℕ) (forward : List Ptr) (xs : List (Item K))
      → cells x ≡ none
      → Chain cells xs
      → Chain (with_node cells x key value forward) xs
  with_node-Chain cells x key value forward xs free chain =
      let out : has x xs ≡ false = free-out cells x xs free chain in
      let other : (a : Ptr) → has a xs ≡ true → with_node cells x key value forward a ≡ cells a =
        λ a inside.
          with_node-other cells x key value forward a
            (λ e. cc (sym inside ∙ ap (λ b. has b xs) e ∙ out)) in
      Chain-kept cells (with_node cells x key value forward) xs
        (λ a inside. ap (λ o. shape_of o) (other a inside))
        (λ a i inside. ap (λ o. pointer_of o i) (other a inside)) chain

  pub with_node-IsHeader :
      (cells : Cells K) (x : Ptr) (key : K) (value : ℕ) (forward : List Ptr) (header : Ptr)
      (xs : List (Item K))
      → header ≢ x
      → IsHeader cells header max_level xs
      → IsHeader (with_node cells x key value forward) header max_level xs
  with_node-IsHeader cells x key value forward header xs ne head =
      let same = with_node-other cells x key value forward header ne in
      record {
        value = head.value;
        room = head.room;
        at = record { valid = head.at.valid; here = ap (λ o. shape_of o) same ∙ head.at.here };
        high = head.high;
        links = λ j lt. ap (λ o. pointer_of o j) same ∙ head.links j lt;
      }

  pub header_free :
      (cells : Cells K) (x header levels : ℕ) (xs : List (Item K))
      → cells x ≡ none
      → IsHeader cells header levels xs
      → header ≢ x
  header_free cells x header levels xs free head e =
      cc (ap (shape cells) (sym e) ∙ head.at.here, ap (λ o. shape_of o) free)
