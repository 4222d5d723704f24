-- ===== src/Linklist/Move.antt =====
-- `linklist_move_node` (linklist/linklist.c): it never writes the neighbours of the new place.
use libakio.Prelude.{
  ℕ, suc, ◌≡◌, ◌≢◌, ◌⊎◌, refl, sym, ap, ◌∙◌, Bool, true, false, some, [], ◌∷◌, ◌++◌, arith, ◌==◌,
  if◌then◌else◌, length, ok, Bool-cases, ==_iff, inl, inr,
}
use libakio.Linklist
use libakio.Linklist.{Linklist, detach}
use libakio.Linklist.Heap.{Ptr, null, Node, node, Cells, Memory}
use libakio.Linklist.Segment.{
  Items, first, last, has, Segment, link_next, link_prev, has-append, frame,
}
use libakio.Linklist.Splice.{ne_of_mem, out_left'}
use libakio.Linklist.Commands.{load-ok, set_next-ok, set_prev-ok}
use libakio.Linklist.Delete.{
  unlinked, remaining, out_right, detach_lem, at_unlinked, unlinked-Segment, remaining-head,
  remaining-len,
}
use libakio.Linklist.Valid.{IsList}

-- Two chains to NULL that start at one address have one length.
length_unique :
    (h : Cells) (b c : Ptr) (xs ys : Items)
    → Segment h b xs null
    → Segment h c ys null
    → first null xs ≡ first null ys
    → length xs ≡ length ys
length_unique h b c [] [] s t e = refl
length_unique h b c [] ((q, w) ∷ ys) s t e = absurd (t.0 (sym e))
length_unique h b c ((p, v) ∷ xs) [] s t e = absurd (s.0 e)
length_unique h b c ((p, v) ∷ xs) ((q, w) ∷ ys) s t e =
    let next : first null xs ≡ first null ys = ground arith in
    ap suc (length_unique h p q xs ys s.2 t.2 next)

mem-node :
    (h : Cells) (before behind a : Ptr) (xs : Items)
    → Segment h before xs behind
    → has a xs ≡ true
    → (a ≢ null) × ((n : Node) × (h a ≡ some n))
mem-node h before behind a [] s i = cc
mem-node h before behind a ((p, v) ∷ xs) s i = elim (Bool-cases (a == p)) [
  | inl e ↦ let same : a ≡ p = ground arith in rw same (s.0, (_, s.1))
  | inr e ↦ mem-node h p behind a xs s.2 (ground arith)
]

link_prev-ne : (h : Cells) (p q a : Ptr) → a ≢ p → link_prev h p q a ≡ h a
unfolding link_prev
link_prev-ne h p q a ne = ground arith

link_next-ne : (h : Cells) (p q a : Ptr) → a ≢ p → link_next h p q a ≡ h a
unfolding link_next
link_next-ne h p q a ne = ground arith

-- Where a list's head can stand after the move: at the rest of the list, or at the moved node in
-- front of the rest.
abbrev Start : Cells → Ptr → Items → Ptr → Type 0
Start g head ws src =
    (head ≡ first null ws)
    ⊎ ((head ≡ src)
        × ((n : Node) × (g src ≡ some n) × (n.next ≡ first null ws) × (first null ws ≢ null)))

-- No sequence of nodes fits such a list: either it is one node short, or its second node does not
-- point back at the first.
broken :
    (m : Memory) (l : Linklist) (ws zs : Items) (src : Ptr)
    → src ≢ null
    → Segment m.cells null ws null
    → l.len ≡ suc (length ws)
    → Start m.cells l.head ws src
    → ¬ IsList m l zs
broken m l ws zs src ne s len (inl e) is =
    let same = length_unique m.cells null null ws zs s is.chain (sym e ∙ is.head) in
    omega (arith, is.len, same, len)
broken m l ws [] src ne s len (inr start) is = omega (arith, is.len, len)
broken m l [] (z ∷ zs) src ne s len (inr (e, (n, found, next, more))) is = more refl
broken m l ((q, w) ∷ ws) ((z, u) ∷ []) src ne s len (inr (e, (n, found, next, more))) is =
    omega (arith, is.len, len)
broken m l ((q, w) ∷ ws) ((z, u) ∷ (z', u') ∷ zs) src ne s len (inr (e, (n, found, next, more)))
      is =
    let at : src ≡ z = sym e ∙ is.head in
    let first_node : some n ≡ some (node null z' u) = sym found ∙ rw at is.chain.1 in
    let second : z' ≡ q = ground (arith, first_node, next) in
    let back : some (node z (first null zs) u') ≡ some (node null (first null ws) w) =
      sym is.chain.2.1 ∙ rw second s.1 in
    is.chain.0 (ground (arith, back))

not_null : (p : Ptr) → p ≢ null → (p == null) ≡ false
not_null p ne = ground arith

at_prev :
    (h : Cells) (p q : Ptr) {b c : Ptr} {v : ℕ}
    → p ≢ null
    → h p ≡ some (node b c v)
    → link_prev h p q p ≡ some (node q c v)
unfolding link_prev
at_prev h p q ne e = ground arith

at_next :
    (h : Cells) (p q : Ptr) {b c : Ptr} {v : ℕ}
    → p ≢ null
    → h p ≡ some (node b c v)
    → link_next h p q p ≡ some (node b q v)
unfolding link_next
at_next h p q ne e = ground arith

module _ {m : Memory} {l : Linklist} (xs ys : Items) (src dst : Ptr) (v : ℕ)
    (is : IsList m l (xs ++ (src, v) ∷ ys)) (there : has dst (xs ++ ys) ≡ true) where
  absent : has src (xs ++ ys) ≡ false
  absent =
      rw (has-append src xs ys, out_left' m.cells xs ys src v is.distinct is.chain)
        (out_right xs ys src v is)

  abbrev without : Memory
  without = unlinked xs ys src v is

  chain : Segment without.cells null (xs ++ ys) null
  chain = unlinked-Segment xs ys src v is

  apart : (src == dst) ≡ false
  apart = let ne = ne_of_mem dst src (xs ++ ys) there absent in ground arith

  target : (dst ≢ null) × ((n : Node) × (without.cells dst ≡ some n))
  target = mem-node without.cells null null dst (xs ++ ys) chain there

  source : (src ≢ null) × (without.cells src ≡ some (node (last null xs) (first null ys) v))
  source = at_unlinked xs ys src v is

  -- the two writes to the moved node
  abbrev moved : Bool → Node → Memory
  moved true n = record without { cells = link_next (link_prev without.cells src dst) src n.next }
  moved false n = record without { cells = link_prev (link_next without.cells src dst) src n.prev }

  moved-ne :
      (after? : Bool) (n : Node) (a : Ptr) → a ≢ src → (moved after? n).cells a ≡ without.cells a
  moved-ne true n a ne = link_next-ne _ src n.next a ne ∙ link_prev-ne without.cells src dst a ne
  moved-ne false n a ne = link_prev-ne _ src n.prev a ne ∙ link_next-ne without.cells src dst a ne

  abbrev rest : Linklist
  rest = remaining xs ys src v is

  abbrev moved_list : Bool → Linklist
  moved_list true = record rest { tail = if rest.tail == dst then src else rest.tail }
  moved_list false = record rest { head = if rest.head == dst then src else rest.head }

  run_move :
      (after? : Bool) (n : Node)
      → without.cells dst ≡ some n
      → Linklist.move_node (some l) src dst after? m
        ≡ ok ((true, some (moved_list after?)), moved after? n)
  unfolding Linklist.move_node
  run_move true n found =
      let (nz, at) = source in
      let (nd, _) = target in
      let m₁ : Memory = record without { cells = link_prev without.cells src dst } in
      let at₁ : m₁.cells src ≡ some (node dst (first null ys) v) =
        at_prev without.cells src dst nz at in
      rw (
        not_null src nz,
        not_null dst nd,
        apart,
        detach_lem xs ys src v is,
        load-ok without nd found,
        set_prev-ok without nz at dst,
        set_next-ok m₁ nz at₁ n.next,
      )
  run_move false n found =
      let (nz, at) = source in
      let (nd, _) = target in
      let m₁ : Memory = record without { cells = link_next without.cells src dst } in
      let at₁ : m₁.cells src ≡ some (node (last null xs) dst v) =
        at_next without.cells src dst nz at in
      rw (
        not_null src nz,
        not_null dst nd,
        apart,
        detach_lem xs ys src v is,
        load-ok without nd found,
        set_next-ok without nz at dst,
        set_prev-ok m₁ nz at₁ n.prev,
      )

  moved-Segment : (after? : Bool) (n : Node) → Segment (moved after? n).cells null (xs ++ ys) null
  moved-Segment after? n =
      frame null null (xs ++ ys) chain
        λ a i. moved-ne after? n a (ne_of_mem a src (xs ++ ys) i absent)

  -- where the head stands
  moved-Start :
      (after? : Bool) (n : Node)
      → Start (moved after? n).cells (moved_list after?).head (xs ++ ys) src
  moved-Start true n = inl (remaining-head xs ys src v is)
  moved-Start false n = elim (Bool-cases (rest.head == dst)) [
    | inr e ↦ inl (rw e (remaining-head xs ys src v is))
    | inl e ↦
        let same : dst ≡ first null (xs ++ ys) =
          sym ((==_iff rest.head dst).0 e) ∙ remaining-head xs ys src v is in
        let (nz, at) = source in
        let linked = at_next without.cells src dst nz at in
        inr (
          rw e refl,
          (
            node n.prev dst v,
            at_prev (link_next without.cells src dst) src n.prev nz linked,
            same,
            rw (← same) target.0,
          ),
        )
  ]

  moved_list-len : (after? : Bool) → (moved_list after?).len ≡ suc (length (xs ++ ys))
  moved_list-len true = remaining-len xs ys src v is
  moved_list-len false = remaining-len xs ys src v is

  -- For every well-formed list and two different nodes of it, linklist_move_node succeeds and
  -- leaves a list that is well formed for no sequence of nodes at all.
  pub move_node-broken :
      (after? : Bool)
      → (l' : Linklist) × (m' : Memory) × (Linklist.move_node (some l) src dst after? m
          ≡ ok ((true, some l'), m'))
        × ((zs : Items) → ¬ IsList m' l' zs)
  move_node-broken after? =
      let (nd, (n, found)) = target in
      (
        moved_list after?,
        moved after? n,
        run_move after? n found,
        λ zs is'.
            broken (moved after? n) (moved_list after?) (xs ++ ys) zs src source.0
              (moved-Segment after? n) (moved_list-len after?) (moved-Start after? n) is',
      )
