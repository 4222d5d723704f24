-- ===== src/Linklist/Splice.antt =====
-- The two changes of a chain (linklist/linklist.c): a node is put between two segments, or taken
-- out from between them.
use libakio.Prelude.{
  ℕ, ◌≡◌, ◌≢◌, ap, ◌∙◌, true, false, some, ◌∷◌, ◌++◌, arith, Bool-cases, inl, inr,
}
use libakio.Linklist.Heap.{Ptr, null, node, Cells, update}
use libakio.Linklist.Segment.{
  Items, first, last, has, Distinct, Segment, link_next, link_prev, frame, link_next-other,
  link_prev-other, Segment-link_next, Segment-link_prev, Segment-split, Segment-join, Apart,
  Distinct-split, has-append,
}

-- the memory after the node at `f` was written and its neighbours were linked to it
abbrev pub spliced : Cells → Items → Ptr → ℕ → Items → Cells
spliced h xs f v ys =
    link_prev
      (link_next (update h f (some (node (last null xs) (first null ys) v))) (last null xs) f)
      (first null ys) f

-- the memory after the neighbours were linked past a node
abbrev pub bridged : Cells → Items → Items → Cells
bridged h xs ys =
    link_prev (link_next h (last null xs) (first null ys)) (first null ys) (last null xs)

pub ne_of_mem : (a f : Ptr) (xs : Items) → has a xs ≡ true → has f xs ≡ false → a ≢ f
ne_of_mem a f xs i o e = cc (ap (λ p. has p xs) e)

absent : (xs ys : Items) → Apart xs ys → (a : Ptr) → has a ys ≡ true → has a xs ≡ false
absent xs ys d a i = elim (Bool-cases (has a xs)) [ inl e ↦ cc (d.disjoint a e) | inr e ↦ e ]

module _ (h : Cells) (xs ys : Items) (d : Apart xs ys) (s : Segment h null (xs ++ ys) null) where
  module _ (f : Ptr) (v : ℕ) (ne : f ≢ null) (out : has f (xs ++ ys) ≡ false) where
    abbrev written : Cells
    written = update h f (some (node (last null xs) (first null ys) v))

    out_left : has f xs ≡ false
    out_left = ground (arith, has-append f xs ys)

    out_right : has f ys ≡ false
    out_right = ground (arith, has-append f xs ys)

    written-other : (a : Ptr) → a ≢ f → written a ≡ h a
    unfolding update
    written-other a na = ground arith

    -- nodes outside the list and other than the new one stay
    pub spliced-other :
        (a : Ptr) → a ≢ f → has a xs ≡ false → has a ys ≡ false → spliced h xs f v ys a ≡ h a
    spliced-other a na ox oy =
        link_prev-other (link_next written (last null xs) f) f a ys oy
        ∙ link_next-other written f a xs ox
        ∙ written-other a na

    pub written-left : Segment written null xs (first null ys)
    written-left =
        frame null (first null ys) xs (Segment-split h null null xs ys s).0
          λ a i. written-other a (ne_of_mem a f xs i out_left)

    abbrev linked : Cells
    linked = link_next written (last null xs) f

    pub linked-right : Segment linked (last null xs) ys null
    linked-right = frame (last null xs) null ys (Segment-split h null null xs ys s).1 λ a i.
        link_next-other written f a xs (absent xs ys d a i)
        ∙ written-other a (ne_of_mem a f ys i out_right)

    spliced-left : Segment (spliced h xs f v ys) null xs f
    spliced-left =
        frame null f xs (Segment-link_next written f null (first null ys) xs written-left d.left)
          λ a i. link_prev-other linked f a ys (d.disjoint a i)

    spliced-right : Segment (spliced h xs f v ys) f ys null
    spliced-right = Segment-link_prev linked f (last null xs) null ys linked-right d.right

    spliced-node : spliced h xs f v ys f ≡ some (node (last null xs) (first null ys) v)
    unfolding update
    spliced-node =
        link_prev-other (link_next written (last null xs) f) f f ys out_right
        ∙ link_next-other written f f xs out_left
        ∙ ground arith

    pub spliced-Segment : Segment (spliced h xs f v ys) null (xs ++ (f, v) ∷ ys) null
    spliced-Segment =
        Segment-join (spliced h xs f v ys) null null xs ((f, v) ∷ ys) spliced-left
          (ne, spliced-node, spliced-right)

module _ (h : Cells) (xs ys : Items) (p : Ptr) (v : ℕ) (d : Distinct (xs ++ (p, v) ∷ ys))
    (s : Segment h null (xs ++ (p, v) ∷ ys) null) where
  parts : Apart xs ((p, v) ∷ ys)
  parts = Distinct-split xs ((p, v) ∷ ys) d

  pub rest-Apart : Apart xs ys
  rest-Apart = record {
    left = parts.left;
    right = parts.right.1;
    disjoint = λ a i. ground (arith, parts.disjoint a i);
  }

  pub out_left' : has p xs ≡ false
  out_left' = elim (Bool-cases (has p xs)) [
    | inl e ↦ ground (arith, parts.disjoint p e)
    | inr e ↦ e
  ]

  -- the node itself, as the list holds it
  pub at_node : (p ≢ null) × (h p ≡ some (node (last null xs) (first null ys) v))
  at_node = let t = (Segment-split h null null xs ((p, v) ∷ ys) s).1 in (t.0, t.1)

  abbrev forward : Cells
  forward = link_next h (last null xs) (first null ys)

  pub bridged-other : (a : Ptr) → has a xs ≡ false → has a ys ≡ false → bridged h xs ys a ≡ h a
  bridged-other a ox oy =
      link_prev-other forward (last null xs) a ys oy ∙ link_next-other h (first null ys) a xs ox

  pub old-left : Segment h null xs p
  old-left = (Segment-split h null null xs ((p, v) ∷ ys) s).0

  pub forward-right : Segment forward p ys null
  forward-right =
      frame p null ys (Segment-split h null null xs ((p, v) ∷ ys) s).1.2
        λ a i. link_next-other h (first null ys) a xs (absent xs ys rest-Apart a i)

  bridged-left : Segment (bridged h xs ys) null xs (first null ys)
  bridged-left =
      frame null (first null ys) xs
        (Segment-link_next h (first null ys) null p xs old-left parts.left)
        λ a i. link_prev-other forward (last null xs) a ys (rest-Apart.disjoint a i)

  bridged-right : Segment (bridged h xs ys) (last null xs) ys null
  bridged-right = Segment-link_prev forward (last null xs) p null ys forward-right parts.right.1

  pub bridged-Segment : Segment (bridged h xs ys) null (xs ++ ys) null
  bridged-Segment = Segment-join (bridged h xs ys) null null xs ys bridged-left bridged-right
