-- ===== src/Linklist/Segment.antt =====
-- Chains of nodes in the memory of linklist/linklist.c: `Segment` relates the pointers in both
-- directions to a list of addresses and values.
use libakio.Prelude.{
  ℕ, ◌≡◌, ◌≢◌, refl, ◌∙◌, Bool, true, false, ◌||◌, Option, none, some, List, [], ◌∷◌, ◌++◌, arith,
  ◌==◌, if◌then◌else◌,
}
use libakio.Linklist.Heap.{Ptr, null, Node, node, Cells, update}

-- the address and the value of each node, in order
abbrev pub Items : Type 0
Items = List (Ptr × ℕ)

abbrev pub first : Ptr → Items → Ptr
first d [] = d
first d ((p, v) ∷ xs) = p

abbrev pub last : Ptr → Items → Ptr
last d [] = d
last d ((p, v) ∷ xs) = last p xs

abbrev pub has : Ptr → Items → Bool
has a [] = false
has a ((p, v) ∷ xs) = (a == p) || has a xs

abbrev pub Distinct : Items → Type 0
Distinct [] = Unit {0}
Distinct ((p, v) ∷ xs) = (has p xs ≡ false) × Distinct xs

-- From a first node whose `prev` is `before` to a last one whose `next` is `behind`.
abbrev pub Segment : Cells → Ptr → Items → Ptr → Type 0
Segment h before [] behind = Unit {0}
Segment h before ((p, v) ∷ xs) behind =
    (p ≢ null) × (h p ≡ some (node before (first behind xs) v)) × Segment h p xs behind

abbrev pub with_next : Ptr → Option Node → Option Node
with_next q none = none
with_next q (some n) = some (record n { next = q })

abbrev pub with_prev : Ptr → Option Node → Option Node
with_prev q none = none
with_prev q (some n) = some (record n { prev = q })

-- the memory after `if (p != NULL) p->next = q`
unfoldable pub link_next : Cells → Ptr → Ptr → Cells
link_next h p q a = if p == null then h a else if a == p then with_next q (h a) else h a

-- the memory after `if (p != NULL) p->prev = q`
unfoldable pub link_prev : Cells → Ptr → Ptr → Cells
link_prev h p q a = if p == null then h a else if a == p then with_prev q (h a) else h a

pub frame :
    {g h : Cells} (before behind : Ptr) (xs : Items)
    → Segment h before xs behind
    → ((a : Ptr) → has a xs ≡ true → g a ≡ h a)
    → Segment g before xs behind
frame before behind [] s same = tt
frame before behind ((p, v) ∷ xs) s same =
    (s.0, ground (arith, same p), frame p behind xs s.2 (λ a i. same a (ground arith)))

pub has-append : (a : Ptr) (xs ys : Items) → has a (xs ++ ys) ≡ (has a xs || has a ys)
has-append a [] ys = refl
has-append a ((p, v) ∷ xs) ys = ground (arith, has-append a xs ys)

pub last-mem : (p : Ptr) (v : ℕ) (xs : Items) → has (last p xs) ((p, v) ∷ xs) ≡ true
last-mem p v [] = ground arith
last-mem p v ((q, w) ∷ xs) = ground (arith, last-mem q w xs)

module _ (h : Cells) (q : Ptr) where
  -- A write behind a segment reaches only its last node.
  pub link_next-other :
      (a : Ptr) (xs : Items) → has a xs ≡ false → link_next h (last null xs) q a ≡ h a
  unfolding link_next
  link_next-other a [] out = refl
  link_next-other a ((p, v) ∷ xs) out = ground (arith, last-mem p v xs)

  pub link_prev-other :
      (a : Ptr) (xs : Items) → has a xs ≡ false → link_prev h (first null xs) q a ≡ h a
  unfolding link_prev
  link_prev-other a [] out = refl
  link_prev-other a ((p, v) ∷ xs) out = ground arith

  pub Segment-link_next :
      (before behind : Ptr) (xs : Items)
      → Segment h before xs behind
      → Distinct xs
      → Segment (link_next h (last null xs) q) before xs q
  unfolding link_next
  Segment-link_next before behind [] s d = tt
  Segment-link_next before behind ((p, v) ∷ []) s d = (s.0, ground arith, tt)
  Segment-link_next before behind ((p, v) ∷ (p', v') ∷ xs) s d = (
    s.0,
    link_next-other p ((p', v') ∷ xs) d.0 ∙ s.1,
    Segment-link_next p behind ((p', v') ∷ xs) s.2 d.1,
  )

  pub Segment-link_prev :
      (before behind : Ptr) (xs : Items)
      → Segment h before xs behind
      → Distinct xs
      → Segment (link_prev h (first null xs) q) q xs behind
  unfolding link_prev
  Segment-link_prev before behind [] s d = tt
  Segment-link_prev before behind ((p, v) ∷ xs) s d =
      (s.0, ground arith, frame p behind xs s.2 (λ a i. ground arith))

-- `xs ++ ys` as two segments that meet.
pub Segment-split :
    (h : Cells) (before behind : Ptr) (xs ys : Items)
    → Segment h before (xs ++ ys) behind
    → Segment h before xs (first behind ys) × Segment h (last before xs) ys behind
Segment-split h before behind [] ys s = (tt, s)
Segment-split h before behind ((p, v) ∷ []) ys s = ((s.0, s.1, tt), s.2)
Segment-split h before behind ((p, v) ∷ (q, w) ∷ xs) ys s =
    let (left, right) = Segment-split h p behind ((q, w) ∷ xs) ys s.2 in ((s.0, s.1, left), right)

pub Segment-join :
    (h : Cells) (before behind : Ptr) (xs ys : Items)
    → Segment h before xs (first behind ys)
    → Segment h (last before xs) ys behind
    → Segment h before (xs ++ ys) behind
Segment-join h before behind [] ys s t = t
Segment-join h before behind ((p, v) ∷ []) ys s t = (s.0, s.1, t)
Segment-join h before behind ((p, v) ∷ (q, w) ∷ xs) ys s t =
    (s.0, s.1, Segment-join h p behind ((q, w) ∷ xs) ys s.2 t)

-- What `Distinct (xs ++ ys)` says of the parts.
pub record Apart (xs ys : Items) : Type 0 where
  pub left : Distinct xs
  pub right : Distinct ys
  pub disjoint : (a : Ptr) → has a xs ≡ true → has a ys ≡ false

pub Distinct-split : (xs ys : Items) → Distinct (xs ++ ys) → Apart xs ys
Distinct-split [] ys d = record { left = tt; right = d; disjoint = λ a i. cc }
Distinct-split ((p, v) ∷ xs) ys d =
    let rest = Distinct-split xs ys d.1 in
    record {
      left = (ground (arith, has-append p xs ys), rest.left);
      right = rest.right;
      disjoint = λ a i. ground (arith, has-append p xs ys, rest.disjoint a);
    }

pub Distinct-join : (xs ys : Items) → Apart xs ys → Distinct (xs ++ ys)
Distinct-join [] ys d = d.right
Distinct-join ((p, v) ∷ xs) ys d = (
  ground (arith, has-append p xs ys, d.left, d.disjoint p),
  Distinct-join xs ys
      (record { left = d.left.1; right = d.right; disjoint = λ a i. d.disjoint a (ground arith) }),
)

pub last-append : (d : Ptr) (xs ys : Items) → last d (xs ++ ys) ≡ last (last d xs) ys
last-append d [] ys = refl
last-append d ((p, v) ∷ xs) ys = last-append p xs ys

pub first-append : (d : Ptr) (xs ys : Items) → first d (xs ++ ys) ≡ first (first d ys) xs
first-append d [] ys = refl
first-append d ((p, v) ∷ xs) ys = refl

-- The last node of a segment, and the first one.
pub last-node :
    (h : Cells) (before behind p : Ptr) (v : ℕ) (xs : Items)
    → Segment h before ((p, v) ∷ xs) behind
    → (last p xs ≢ null) × ((n : Node) × (h (last p xs) ≡ some n) × (n.next ≡ behind))
last-node h before behind p v [] s = (s.0, (node before behind v, s.1, refl))
last-node h before behind p v ((q, w) ∷ xs) s = last-node h p behind q w xs s.2

pub not-mem_of_none :
    (h : Cells) (a before behind : Ptr) (xs : Items)
    → Segment h before xs behind
    → h a ≡ none
    → has a xs ≡ false
not-mem_of_none h a before behind [] s e = refl
not-mem_of_none h a before behind ((p, v) ∷ xs) s e =
    ground (arith, not-mem_of_none h a p behind xs s.2 e)

-- The same, where the segment is known not to be empty by its end.
pub last-node? :
    (h : Cells) (before behind : Ptr) (xs : Items)
    → Segment h before xs behind
    → last null xs ≢ null
    → (n : Node) × (h (last null xs) ≡ some n) × (n.next ≡ behind)
last-node? h before behind [] s ne = absurd (ne refl)
last-node? h before behind ((p, v) ∷ xs) s ne = (last-node h before behind p v xs s).1

pub first-node? :
    (h : Cells) (before behind : Ptr) (xs : Items)
    → Segment h before xs behind
    → first null xs ≢ null
    → (n : Node) × (h (first null xs) ≡ some n) × (n.prev ≡ before)
first-node? h before behind [] s ne = absurd (ne refl)
first-node? h before behind ((p, v) ∷ xs) s ne = (node before (first behind xs) v, s.1, refl)

pub update-ne : (h : Cells) (p : Ptr) (c : Option Node) (a : Ptr) → a ≢ p → update h p c a ≡ h a
unfolding update
update-ne h p c a ne = ground arith

pub update-eq : (h : Cells) (p : Ptr) (c : Option Node) → update h p c p ≡ c
unfolding update
update-eq h p c = ground arith
