-- ===== src/Linklist/Insert.antt =====
-- `linklist_insert_node`, `linklist_add_head` and `linklist_add_tail` (linklist/linklist.c).
use libakio.Prelude.{
  ℕ, ◌+◌, ◌^◌, ◌<◌, ◌≡◌, ◌≢◌, refl, sym, ◌∙◌, Bool, true, false, Option, none, some, [], ◌∷◌, ◌++◌,
  arith, ◌==◌, if◌then◌else◌, length-append, ok, Bool-cases, inl, inr,
}
use mathlib.Core.List.{append-nil}
use libakio.Linklist
use libakio.Linklist.{Linklist, place, link, longer}
use libakio.Linklist.Heap.{Ptr, null, Node, node, Memory, update, store}
use libakio.Linklist.Segment.{
  Items, first, last, has, Distinct, Segment, Apart, link_next, link_prev, last-append,
  first-append, has-append, Distinct-split, Segment-split, last-node, last-node?, first-node?,
  not-mem_of_none,
}
use libakio.Linklist.Splice.{spliced, spliced-Segment, spliced-other, written-left, linked-right}
use libakio.Linklist.Commands.{load-ok, set_next-ok, set_prev-ok, maybe_next-ok, maybe_prev-ok}
use libakio.Linklist.Valid.{IsList, SameOutside, tail-insert, head-insert, head-keep, tail-keep}

module _ (m : Memory) (xs ys : Items) (d : Apart xs ys) (s : Segment m.cells null (xs ++ ys) null)
    (f : Ptr) (v : ℕ) (ne : f ≢ null) (out : has f (xs ++ ys) ≡ false) where
  link-spliced :
      link f v (last null xs) (first null ys) m
      ≡ ok (tt, record m { cells = spliced m.cells xs f v ys })
  unfolding link store
  link-spliced =
      let m₁ : Memory = record m {
        cells = update m.cells f (some (node (last null xs) (first null ys) v));
      } in
      let m₂ : Memory = record m { cells = link_next m₁.cells (last null xs) f } in
      rw (
        maybe_next-ok m₁ f null (first null ys) xs (written-left m.cells xs ys d s f v ne out),
        maybe_prev-ok m₂ f (last null xs) null ys (linked-right m.cells xs ys d s f v ne out),
      )

-- `l'` is the list of `xs` with the new node `(f, v)`; other nodes and the log stay.
pub record Inserted (m : Memory) (xs ys : Items) (f : Ptr) (v : ℕ) (l' : Linklist) (m' : Memory)
    : Type 0 where
  pub is : IsList m' l' (xs ++ (f, v) ∷ ys)
  pub same : SameOutside (xs ++ ys) f m m'
  pub released : m'.released ≡ m.released

Distinct-insert :
    (xs ys : Items) (f : Ptr) (v : ℕ)
    → Apart xs ys
    → has f (xs ++ ys) ≡ false
    → Distinct (xs ++ (f, v) ∷ ys)
Distinct-insert [] ys f v d out = (out, d.right)
Distinct-insert ((p, w) ∷ xs) ys f v d out = (
  ground (arith, has-append p xs ((f, v) ∷ ys), has-append p xs ys, d.disjoint p, d.left),
  Distinct-insert xs ys f v
      (record { left = d.left.1; right = d.right; disjoint = λ a i. d.disjoint a (ground arith) })
      (ground arith),
)

module _ {m : Memory} {l : Linklist} (xs ys : Items) (f : Ptr) (v : ℕ) (is : IsList m l (xs ++ ys))
    (ne : f ≢ null) (unused : m.cells f ≡ none) (few : l.len + 1 < 2 ^ 64) where
  apart : Apart xs ys
  apart = Distinct-split xs ys is.distinct

  fresh_out : has f (xs ++ ys) ≡ false
  fresh_out = not-mem_of_none m.cells f null null (xs ++ ys) is.chain unused

  abbrev after : Memory
  after = record m { cells = spliced m.cells xs f v ys }

  abbrev result : Ptr → Ptr → Linklist
  result head tail = record l { head = head; tail = tail; len = longer l.len }

  inserted :
      (head tail : Ptr)
      → head ≡ first f xs
      → tail ≡ last f ys
      → Inserted m xs ys f v (result head tail) after
  inserted head tail eh et = record {
    is = record {
      chain = spliced-Segment m.cells xs ys apart is.chain f v ne fresh_out;
      distinct = Distinct-insert xs ys f v apart fresh_out;
      head = eh ∙ sym (first-append null xs ((f, v) ∷ ys));
      tail = et ∙ sym (last-append null xs ((f, v) ∷ ys));
      len = omega (arith, is.len, length-append xs ys, length-append xs ((f, v) ∷ ys));
    };
    same = λ a na o.
        spliced-other m.cells xs ys apart is.chain f v ne fresh_out a na
          (ground (arith, has-append a xs ys)) (ground (arith, has-append a xs ys));
    released = refl;
  }

  run_link : link f v (last null xs) (first null ys) m ≡ ok (tt, after)
  run_link = link-spliced m xs ys apart is.chain f v ne fresh_out

  fresh_not_null : (f == null) ≡ false
  fresh_not_null = ground arith

  -- Behind the node at the end of `xs`.
  insert_after :
      (at : Ptr) (n : Node)
      → at ≡ last null xs
      → at ≢ null
      → m.cells at ≡ some n
      → n.next ≡ first null ys
      → Linklist.insert_node f (some l) at v true m
        ≡ ok ((true, some (result l.head (if l.tail == at then f else l.tail))), after)
  unfolding Linklist.insert_node
  insert_after at n e nz found next =
      let nz' : (at == null) ≡ false = ground arith in
      rw (nz', fresh_not_null, load-ok m nz found, next, e, run_link)
        (elim (Bool-cases (l.tail == last null xs)) [ inl t ↦ rw t | inr t ↦ rw t ])

  -- Before the node at the start of `ys`.
  insert_before :
      (at : Ptr) (n : Node)
      → at ≡ first null ys
      → at ≢ null
      → m.cells at ≡ some n
      → n.prev ≡ last null xs
      → Linklist.insert_node f (some l) at v false m
        ≡ ok ((true, some (result (if l.head == at then f else l.head) l.tail)), after)
  unfolding Linklist.insert_node
  insert_before at n e nz found prev =
      let nz' : (at == null) ≡ false = ground arith in
      rw (nz', fresh_not_null, load-ok m nz found, prev, e, run_link)
        (elim (Bool-cases (l.head == first null ys)) [ inl t ↦ rw t | inr t ↦ rw t ])

  -- On a well-formed list, with a fresh node from malloc, linklist_insert_node puts the node
  -- behind the last node of the left part or before the first node of the right part, keeps the
  -- list well formed in both directions, and changes no node outside the list.
  pub insert_node-Inserted :
      (after? : Bool) (at : Ptr)
      → at ≡ (if after? then last null xs else first null ys)
      → at ≢ null
      → (l' : Linklist) × (m' : Memory) × (Linklist.insert_node f (some l) at v after? m
          ≡ ok ((true, some l'), m'))
        × Inserted m xs ys f v l' m'
  insert_node-Inserted true at e nz =
      let split = Segment-split m.cells null null xs ys is.chain in
      let (n, found, next) = last-node? m.cells null (first null ys) xs split.0 (rw (← e) nz) in
      (
        result l.head (if l.tail == at then f else l.tail),
        after,
        insert_after at n e nz (rw e found) next,
        inserted l.head (if l.tail == at then f else l.tail)
            (is.head ∙ head-keep f xs ys (rw (← e) nz))
            (rw (e, is.tail) (tail-insert f xs ys apart (rw (← e) nz))),
      )
  insert_node-Inserted false at e nz =
      let split = Segment-split m.cells null null xs ys is.chain in
      let (n, found, prev) = first-node? m.cells (last null xs) null ys split.1 (rw (← e) nz) in
      (
        result (if l.head == at then f else l.head) l.tail,
        after,
        insert_before at n e nz (rw e found) prev,
        inserted (if l.head == at then f else l.head) l.tail
            (rw (e, is.head) (head-insert f xs ys apart (rw (← e) nz)))
            (is.tail ∙ tail-keep f xs ys (rw (← e) nz)),
      )

-- On an empty list the new node is the only one.
abbrev alone : Linklist → Ptr → Linklist
alone l f = record l { head = f; tail = f; len = longer l.len }

filled : (f : Ptr) → f ≢ null → (f == null) ≡ false
filled f ne = ground arith

module _ {m : Memory} {l : Linklist} (f : Ptr) (v : ℕ) (ne : f ≢ null) (unused : m.cells f ≡ none)
    (few : l.len + 1 < 2 ^ 64) where
  alone-Inserted :
      IsList m l []
      → Inserted m [] [] f v (alone l f) (record m { cells = spliced m.cells [] f v [] })
  alone-Inserted is = inserted [] [] f v is ne unused few f f refl refl

  -- With a fresh node from malloc, linklist_add_head puts the value before all others, on empty
  -- lists too, and the list stays well formed.
  pub add_head-Inserted :
      (ys : Items)
      → IsList m l ys
      → (l' : Linklist) × (m' : Memory) × (Linklist.add_head f (some l) v m
          ≡ ok ((true, some l'), m'))
        × Inserted m [] ys f v l' m'
  unfolding Linklist.add_head store link_next link_prev
  add_head-Inserted [] is =
      let empty : (l.len == 0) ≡ true = ground (arith, is.len) in
      (alone l f, _, rw (filled f ne, empty), alone-Inserted is)
  add_head-Inserted ((q, w) ∷ ys) is =
      let more : (l.len == 0) ≡ false = ground (arith, is.len) in
      let s =
        linked-right m.cells [] ((q, w) ∷ ys) (apart [] ((q, w) ∷ ys) f v is ne unused few) is.chain
          f v ne (fresh_out [] ((q, w) ∷ ys) f v is ne unused few) in
      (
        record l { head = f; len = longer l.len },
        record m { cells = spliced m.cells [] f v ((q, w) ∷ ys) },
        rw (
          filled f ne,
          more,
          is.head,
          set_prev-ok (record m { cells = update m.cells f (some (node null q v)) }) s.0 s.1 f,
        ),
        inserted [] ((q, w) ∷ ys) f v is ne unused few f l.tail refl is.tail,
      )

  -- With a fresh node from malloc, linklist_add_tail puts the value behind all others, on empty
  -- lists too, and the list stays well formed.
  pub add_tail-Inserted :
      (xs : Items)
      → IsList m l xs
      → (l' : Linklist) × (m' : Memory) × (Linklist.add_tail f (some l) v m
          ≡ ok ((true, some l'), m'))
        × Inserted m xs [] f v l' m'
  unfolding Linklist.add_tail store link_next link_prev
  add_tail-Inserted [] is =
      let empty : (l.len == 0) ≡ true = ground (arith, is.len) in
      (alone l f, _, rw (filled f ne, empty), alone-Inserted is)
  add_tail-Inserted ((q, w) ∷ xs) is =
      let more : (l.len == 0) ≡ false = ground (arith, is.len) in
      let ys : Items = (q, w) ∷ xs in
      let is' : IsList m l (ys ++ []) = rw append-nil is in
      let s =
        written-left m.cells ys [] (apart ys [] f v is' ne unused few) is'.chain f v ne
          (fresh_out ys [] f v is' ne unused few) in
      let (nz, (n, e, _)) = last-node _ null null q w xs s in
      (
        record l { tail = f; len = longer l.len },
        record m { cells = spliced m.cells ys f v [] },
        rw (
          filled f ne,
          more,
          is.tail,
          set_next-ok (record m { cells = update m.cells f (some (node (last q xs) null v)) }) nz e
              f,
        ),
        inserted ys [] f v is' ne unused few l.head f is.head refl,
      )

-- A failed malloc makes the three adding functions return NULL and change nothing; so does a NULL
-- node for linklist_insert_node and a NULL list for linklist_add_head.
pub add-refused :
    (l? : Option Linklist) (at : Ptr) (v : ℕ) (after? : Bool) (m : Memory)
    → (Linklist.add_head null l? v m ≡ ok ((false, l?), m))
      × (Linklist.add_tail null l? v m ≡ ok ((false, l?), m))
      × (Linklist.insert_node null l? at v after? m ≡ ok ((false, l?), m))
      × ((f : Ptr) → Linklist.insert_node f l? null v after? m ≡ ok ((false, l?), m))
      × ((f : Ptr) → Linklist.add_head f none v m ≡ ok ((false, none), m))
unfolding Linklist.add_head Linklist.add_tail Linklist.insert_node
add-refused none at v after? m = (refl, refl, refl, (λ f. refl), λ f. refl)
add-refused (some l) at v after? m = (
  refl,
  refl,
  (elim (Bool-cases (at == null)) [ inl e ↦ rw e | inr e ↦ rw e ]),
  (λ f. refl),
  λ f. refl,
)
