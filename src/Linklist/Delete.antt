-- ===== src/Linklist/Delete.antt =====
-- `linklist_delete_node` (linklist/linklist.c), and the unlinking that it shares with
-- `linklist_move_node`.
use libakio.Prelude.{
  ℕ, suc, ◌+◌, ◌-◌, ◌^◌, ◌<◌, ◌≡◌, ◌≢◌, refl, ◌∙◌, false, none, some, [], ◌∷◌, ◌++◌, arith, ◌==◌,
  if◌then◌else◌, length, length-append, ok, wrap,
}
use mathlib.Core.List.{append-nil}
use libakio.Linklist
use libakio.Linklist.{Linklist, detach}
use libakio.Linklist.Heap.{Ptr, null, node, Cells, Memory, pure}
use libakio.Linklist.Segment.{
  Items, first, last, has, Segment, link_next, link_next-other, last-append, has-append,
  Distinct-join, Distinct-split, last-node, frame, update-ne, update-eq,
}
use libakio.Linklist.Splice.{
  ne_of_mem, bridged, bridged-Segment, bridged-other, rest-Apart, out_left', at_node, old-left,
  forward-right,
}
use libakio.Linklist.Commands.{dropped, load-ok, drop-ok, maybe_next-ok, maybe_prev-ok}
use libakio.Linklist.Valid.{IsList, SameOutside}

-- The ends of the list after the node was taken out.
head-detach :
    (h : Cells) (p : Ptr) (v : ℕ) (xs ys : Items) (behind : Ptr)
    → Segment h null xs behind
    → (if last null xs == null then first null ys else first null (xs ++ (p, v) ∷ ys))
      ≡ first null (xs ++ ys)
head-detach h p v [] ys behind s = refl
head-detach h p v ((q, w) ∷ xs) ys behind s =
    let ne = (last-node h null behind q w xs s).0 in ground arith

tail-detach :
    (h : Cells) (p : Ptr) (v : ℕ) (xs ys : Items) (before : Ptr)
    → Segment h before ys null
    → (if first null ys == null then last null xs else last null (xs ++ (p, v) ∷ ys))
      ≡ last null (xs ++ ys)
tail-detach h p v xs [] before s = rw append-nil
tail-detach h p v xs ((q, w) ∷ ys) before s =
    let other : (q == null) ≡ false = ground arith in
    rw (other, last-append null xs ((p, v) ∷ (q, w) ∷ ys), last-append null xs ((q, w) ∷ ys))

module _ {m : Memory} {l : Linklist} (xs ys : Items) (p : Ptr) (v : ℕ)
    (is : IsList m l (xs ++ (p, v) ∷ ys)) where
  pub unlinked : Memory
  unlinked = record m { cells = bridged m.cells xs ys }

  pub remaining : Linklist
  remaining = record l { head = first null (xs ++ ys); tail = last null (xs ++ ys) }

  pub out_right : has p ys ≡ false
  out_right = (Distinct-split xs ((p, v) ∷ ys) is.distinct).right.0

  pub detach_lem : detach l p m ≡ ok (remaining, unlinked)
  unfolding detach remaining unlinked
  detach_lem =
      let s = is.chain in
      let (ne, found) = at_node m.cells xs ys p v is.distinct s in
      let h = m.cells in
      let m₁ : Memory = record m { cells = link_next h (last null xs) (first null ys) } in
      let left = out_left' h xs ys p v is.distinct s in
      let found₁ = link_next-other h (first null ys) p xs left ∙ found in
      let eh : (if last null xs == null then first null ys else l.head) ≡ first null (xs ++ ys) =
        rw is.head (head-detach h p v xs ys p (old-left h xs ys p v is.distinct s)) in
      let et : (if first null ys == null then last null xs else l.tail) ≡ last null (xs ++ ys) =
        rw is.tail (tail-detach m₁.cells p v xs ys p (forward-right h xs ys p v is.distinct s)) in
      rw (
        load-ok m ne found,
        maybe_next-ok m (first null ys) null p xs (old-left h xs ys p v is.distinct s),
        load-ok m₁ ne found₁,
        maybe_prev-ok m₁ (last null xs) p null ys (forward-right h xs ys p v is.distinct s),
        eh,
        et,
      )

  pub at_unlinked : (p ≢ null) × (unlinked.cells p ≡ some (node (last null xs) (first null ys) v))
  unfolding unlinked
  at_unlinked =
      let s = is.chain in
      let (ne, found) = at_node m.cells xs ys p v is.distinct s in
      (
        ne,
        bridged-other m.cells xs ys p v is.distinct s p (out_left' m.cells xs ys p v is.distinct s)
              out_right
            ∙ found,
      )

  pub unlinked-Segment : Segment unlinked.cells null (xs ++ ys) null
  unfolding unlinked
  unlinked-Segment = bridged-Segment m.cells xs ys p v is.distinct is.chain

  pub remaining-head : remaining.head ≡ first null (xs ++ ys)
  unfolding remaining
  remaining-head = refl

  pub remaining-len : remaining.len ≡ suc (length (xs ++ ys))
  unfolding remaining
  remaining-len = omega (arith, is.len, length-append xs ys, length-append xs ((p, v) ∷ ys))

  abbrev pub deleted : Memory
  deleted = dropped l.free_func unlinked p v

  abbrev pub shorter : Linklist
  shorter = record remaining { len = wrap 64 (l.len + (2 ^ 64 - 1)) }

  run_delete : Linklist.delete_node l p m ≡ ok (shorter, deleted)
  unfolding Linklist.delete_node remaining
  run_delete =
      let (ne, found) = at_unlinked in
      rw (detach_lem, load-ok unlinked ne found)
        (drop-ok l.free_func unlinked (pure shorter) ne found)

  deleted-IsList : l.len < 2 ^ 64 → IsList deleted shorter (xs ++ ys)
  unfolding unlinked remaining
  deleted-IsList few =
      let s = is.chain in
      let out : has p (xs ++ ys) ≡ false =
        rw (has-append p xs ys, out_left' m.cells xs ys p v is.distinct s) out_right in
      record {
        chain =
            frame null null (xs ++ ys) (bridged-Segment m.cells xs ys p v is.distinct s)
              λ a i. update-ne unlinked.cells p none a (ne_of_mem a p (xs ++ ys) i out);
        distinct = Distinct-join xs ys (rest-Apart m.cells xs ys p v is.distinct s);
        head = refl;
        tail = refl;
        len = omega (arith, is.len, length-append xs ys, length-append xs ((p, v) ∷ ys));
      }

  -- `linklist_delete_node` takes the node out of the list, hands its value to `free_func` and frees
  -- it; other nodes stay.
  pub delete_node-IsList :
      l.len < 2 ^ 64
      → (l' : Linklist) × (m' : Memory) × (Linklist.delete_node l p m ≡ ok (l', m'))
        × IsList m' l' (xs ++ ys)
        × (m'.cells p ≡ none)
        × SameOutside (xs ++ ys) p m m'
        × (m'.released ≡ (if l.free_func then v ∷ m.released else m.released))
  unfolding unlinked
  delete_node-IsList few = (
    shorter,
    deleted,
    run_delete,
    deleted-IsList few,
    update-eq unlinked.cells p none,
    (λ a na o.
        update-ne unlinked.cells p none a na
        ∙ bridged-other m.cells xs ys p v is.distinct is.chain a
            (ground (arith, has-append a xs ys)) (ground (arith, has-append a xs ys))),
    refl,
  )
