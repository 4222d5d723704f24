-- ===== src/Buffer/Spare.antt =====
-- The pool of kznet/buffer.c against the list of its buffers, the first one to hand out at the front.
use libakio.Prelude.{
  ℕ, suc, ◌-◌, ◌<◌, ◌≤◌, ◌≡◌, ◌≢◌, refl, sym, ap, ◌∙◌, arith, Bool, true, false, ◌||◌, none, List,
  [], ◌∷◌, ◌++◌, length, ◌==◌, ne→==-false, if◌then◌else◌, ok,
}
use libakio.Buffer.{Store, detach, rewind}
use libakio.Buffer.Memory.{Ptr, null, Buffer, Cells, buffer_size, update}
use libakio.Buffer.Bytes.{IsBuffer}
use libakio.Buffer.Segment.{
  Item, first, last_addr, tail_of, count, cell, IsAt, Segment, count_rest, Segment-kept, load-run,
  set_next-run, update_other,
}

abbrev pub IsEmpty : Buffer → Type 0
IsEmpty b = IsBuffer b × (b.read_at ≡ b.start) × (b.last ≡ b.start)

abbrev pub AllEmpty : List Item → Type 0
AllEmpty [] = Unit {0}
AllEmpty (x ∷ xs) = IsEmpty x.buffer × AllEmpty xs

abbrev pub has_block : Ptr → List (Ptr × List ℕ) → Bool
has_block p [] = false
has_block p (b ∷ blocks) = (p == b.0) || has_block p blocks

-- What `malloc` returns is free, large enough, and of different addresses.
abbrev pub IsBlocks : Cells → List (Ptr × List ℕ) → Type 0
IsBlocks cells [] = Unit {0}
IsBlocks cells (b ∷ blocks) =
    ((b.0 ≢ null)
      × (cells b.0 ≡ none)
      × (length b.1 ≡ buffer_size)
      × (has_block b.0 blocks ≡ false))
    × IsBlocks cells blocks

pub record IsPool (s : Store) (ys : List Item) : Type 0 where
  pub segment : Segment s.cells ys null
  pub head : s.pool.head ≡ first ys null
  pub tail : s.pool.tail ≡ tail_of ys
  pub size : s.pool.size ≡ length ys
  pub empty : AllEmpty ys
  pub once : (a : Ptr) → count a ys ≤ 1
  pub blocks : IsBlocks s.cells s.blocks

pub IsBlocks-kept :
    (cells cells' : Cells) (blocks : List (Ptr × List ℕ))
    → ((a : Ptr) → has_block a blocks ≡ true → cells a ≡ none → cells' a ≡ none)
    → IsBlocks cells blocks
    → IsBlocks cells' blocks
IsBlocks-kept cells cells' [] same good = tt
IsBlocks-kept cells cells' (b ∷ blocks) same ((valid, free, full, out), good) =
    let hit : has_block b.0 (b ∷ blocks) ≡ true = ground arith in
    (
      (valid, same b.0 hit free, full, out),
      IsBlocks-kept cells cells' blocks (λ a inside e. same a (ground arith) e) good,
    )

-- A change of the memory outside the pool keeps it.
pub IsPool-kept :
    (s : Store) (cells' : Cells) (ys : List Item)
    → ((a : Ptr) → 0 < count a ys → cells' a ≡ s.cells a)
    → ((a : Ptr) → s.cells a ≡ none → cells' a ≡ none)
    → IsPool s ys
    → IsPool (record s { cells = cells' }) ys
IsPool-kept s cells' ys same free good = record {
  segment = Segment-kept s.cells cells' ys null same good.segment;
  head = good.head;
  tail = good.tail;
  size = good.size;
  empty = good.empty;
  once = good.once;
  blocks = IsBlocks-kept s.cells cells' s.blocks (λ a inside e. free a e) good.blocks;
}

-- an address where a buffer is, is not free
pub not_free :
    (cells : Cells) (p a : Ptr) (b : Buffer) (q : Ptr) → cells p ≡ cell b q → cells a ≡ none → a ≢ p
not_free cells p a b q here free e = cc (sym here ∙ ap cells (sym e) ∙ free)

pub not_in : (a p : Ptr) (ys : List Item) → 0 < count a ys → count p ys ≡ 0 → a ≢ p
not_in a p ys pos out e = omega (arith, pos, ap (λ (x : Ptr). count x ys) e, out)

detach-ok :
    (s : Store) (p : Ptr) (b : Buffer) (q : Ptr)
    → IsAt s.cells p b q
    → detach s p
      ≡ ok (record s {
        cells = update s.cells p (cell b null);
        pool = record (s.pool) {
          head = q;
          tail = if q == null then none else s.pool.tail;
          size = s.pool.size - 1;
        };
      })
unfolding detach
detach-ok s p b q at = rw (load-run s.cells p b q at, set_next-run s.cells p b q null at) refl

detached-tail :
    (cells : Cells) (y : Item) (ys : List Item)
    → Segment cells ys null
    → (if first ys null == null then none else tail_of (y ∷ ys)) ≡ tail_of ys
detached-tail cells y [] seg = refl
detached-tail cells y (z ∷ zs) ((valid, here), seg) = rw (ne→==-false z.addr null valid) refl

pub detach-IsPool :
    (s : Store) (y : Item) (ys : List Item)
    → IsPool s (y ∷ ys)
    → (s' : Store) × (detach s y.addr ≡ ok s')
      × IsPool s' ys
      × (s'.cells ≡ update s.cells y.addr (cell y.buffer null))
      × (s'.blocks ≡ s.blocks)
detach-IsPool s y ys good =
    let (here, seg) = good.segment in
    let cells' : Cells = update s.cells y.addr (cell y.buffer null) in
    let hit : (y.addr == y.addr) ≡ true = ground arith in
    let out : count y.addr ys ≡ 0 =
      let c : count y.addr (y ∷ ys) ≡ suc (count y.addr ys) = rw hit refl in
      omega (arith, good.once y.addr, c) in
    (
      _,
      detach-ok s y.addr y.buffer (first ys null) here,
      record {
        segment =
            Segment-kept s.cells cells' ys null
              (λ a pos. update_other s.cells y.addr _ a (not_in a y.addr ys pos out)) seg;
        head = refl;
        tail = rw good.tail (detached-tail s.cells y ys seg);
        size = omega (arith, good.size);
        empty = good.empty.1;
        once = λ a. omega (arith, good.once a, count_rest a y ys);
        blocks =
            IsBlocks-kept s.cells cells' s.blocks
              (λ a inside e.
                update_other s.cells y.addr _ a (not_free s.cells y.addr a y.buffer _ here.1 e) ∙ e)
              good.blocks;
      },
      refl,
      refl,
    )

pub Segment-last :
    (cells : Cells) (y : Item) (ys : List Item) (q : Ptr)
    → Segment cells (y ∷ ys) q
    → (b : Buffer) × IsAt cells (last_addr y ys) b q
Segment-last cells y [] q (here, seg) = (y.buffer, here)
Segment-last cells y (z ∷ zs) q (here, seg) = Segment-last cells z zs q seg

pub AllEmpty-append :
    (ys : List Item) (x : Item) → AllEmpty ys → IsEmpty x.buffer → AllEmpty (ys ++ x ∷ [])
AllEmpty-append [] x all good = (good, tt)
AllEmpty-append (y ∷ ys) x (here, all) good = (here, AllEmpty-append ys x all good)

pub last_addr-append : (y : Item) (ys : List Item) (x : Item) → last_addr y (ys ++ x ∷ []) ≡ x.addr
last_addr-append y [] x = refl
last_addr-append y (z ∷ zs) x = last_addr-append z zs x

pub rewind-IsEmpty : (b : Buffer) → IsBuffer b → IsEmpty (rewind b)
rewind-IsEmpty b good = (
  record {
    start_at = good.start_at;
    end_at = good.end_at;
    full = good.full;
    read_from = omega arith;
    in_order = omega arith;
    fits = omega (arith, good.start_at, good.end_at);
  },
  refl,
  refl,
)
