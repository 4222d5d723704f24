-- ===== src/Buffer/Skip.antt =====
-- The rounds of shrink_chain of kznet/buffer.c, and a read marker that moves on.
use libakio.Prelude.{
  ℕ, suc, ◌+◌, ◌-◌, ◌≤◌, ◌≡◌, inl, inr, refl, sym, ◌∙◌, arith, true, false, List, [], ◌∷◌, drop,
  drop-all, ltb, ◌==◌, ==_iff, Bool-cases, ok,
}
use libakio.Buffer.{Store, put}
use libakio.Buffer.Memory.{Ptr, take, Buffer, Cell, Cells, load, set_buffer, read_size, slice}
use libakio.Buffer.Chain.{Chain, skip_all, shrink}
use libakio.Buffer.Bytes.{IsBuffer, content, length-content, length-take, drop-drop}
use libakio.Buffer.Segment.{Item, count}
use libakio.Buffer.Put.{one_at}

pub shrink-last :
    (fuel : ℕ) (s : Store) (chain : Chain) (size : ℕ) (c : Cell) (cells : Cells)
    → load s.cells chain.rbuf ≡ ok c
    → (chain.rbuf == chain.wbuf) ≡ true
    → ltb (read_size c.buffer) size ≡ false
    → set_buffer s.cells chain.rbuf (skip_all c.buffer size) ≡ ok cells
    → shrink (suc fuel) s chain size ≡ ok (chain.rbuf, record s { cells = cells }, chain)
unfolding shrink
shrink-last fuel s chain size c cells l same fits w = rw (l, same, fits, w) refl

pub shrink-part :
    (fuel : ℕ) (s : Store) (chain : Chain) (size : ℕ) (c : Cell) (cells : Cells)
    → load s.cells chain.rbuf ≡ ok c
    → (chain.rbuf == chain.wbuf) ≡ false
    → ltb size (read_size c.buffer) ≡ true
    → set_buffer s.cells chain.rbuf (record (c.buffer) { read_at = c.buffer.read_at + size })
      ≡ ok cells
    → shrink (suc fuel) s chain size ≡ ok (chain.rbuf, record s { cells = cells }, chain)
unfolding shrink
shrink-part fuel s chain size c cells l other less w = rw (l, other, less, w) refl

pub shrink-whole :
    (fuel : ℕ) (s s' : Store) (chain : Chain) (size : ℕ) (c : Cell)
    → load s.cells chain.rbuf ≡ ok c
    → (chain.rbuf == chain.wbuf) ≡ false
    → ltb size (read_size c.buffer) ≡ false
    → put s chain.rbuf ≡ ok s'
    → shrink (suc fuel) s chain size
      ≡ shrink fuel s' (record chain { rbuf = c.next }) (size - read_size c.buffer)
unfolding shrink
shrink-whole fuel s s' chain size c l other more p = rw (l, other, more, p) refl

pub count_cons :
    (a : Ptr) (x : Item) (xs : List Item) → count a (x ∷ xs) ≡ one_at a x.addr + count a xs
count_cons a x xs = elim (Bool-cases (a == x.addr)) [
  | inl e ↦ rw e (omega arith)
  | inr e ↦ rw e (omega arith)
]

pub skipped-IsBuffer :
    (b : Buffer) (size : ℕ)
    → IsBuffer b
    → b.read_at + size ≤ b.last
    → IsBuffer (record b { read_at = b.read_at + size })
skipped-IsBuffer b size good le = record {
  start_at = good.start_at;
  end_at = good.end_at;
  full = good.full;
  read_from = omega (arith, good.read_from);
  in_order = le;
  fits = good.fits;
}

pub skipped_content :
    (b : Buffer) (size : ℕ)
    → content (record b { read_at = b.read_at + size }) ≡ drop size (content b)
skipped_content b size = drop-drop b.read_at size (take b.last b.bytes)

pub skip_all-IsBuffer :
    (b : Buffer) (size : ℕ) → IsBuffer b → b.read_at + size ≤ b.last → IsBuffer (skip_all b size)
skip_all-IsBuffer b size good le = elim (Bool-cases (b.read_at + size == b.last)) [
  | inr part ↦ rw part (skipped-IsBuffer b size good le)
  | inl all ↦ rw all (record {
    start_at = good.start_at;
    end_at = good.end_at;
    full = good.full;
    read_from = omega arith;
    in_order = omega arith;
    fits = omega (arith, good.start_at, good.end_at);
  })
]

pub skip_all-content :
    (b : Buffer) (size : ℕ)
    → IsBuffer b
    → b.read_at + size ≤ b.last
    → content (skip_all b size) ≡ drop size (content b)
skip_all-content b size good le = elim (Bool-cases (b.read_at + size == b.last)) [
  | inr part ↦ rw part (skipped_content b size)
  | inl all ↦
      let eq : b.read_at + size ≡ b.last = (==_iff (b.read_at + size) b.last).0 all in
      let nothing : slice b.start b.start b.bytes ≡ [] =
        drop-all b.start (take b.start b.bytes)
          (omega (arith, length-take b.start b.bytes (omega (arith, good.full, good.start_at)))) in
      rw all (nothing ∙ sym (drop-all size (content b) (omega (arith, length-content b good, eq))))
]
