-- ===== src/Buffer/Gather.antt =====
-- The entries that buffer_chain_send of kznet/buffer.c hands to writev.
use libakio.Prelude.{
  ℕ, zero, suc, ◌+◌, ◌≡◌, ◌≢◌, refl, sym, ap, ◌∙◌, arith, List, [], ◌∷◌, ◌++◌, length,
  length-append, ne→==-false, ok,
}
use libakio.Buffer.{Store}
use libakio.Buffer.Memory.{Ptr, null, Cell, Cells, load, read_size}
use libakio.Buffer.Chain.{Chain, max_iov, gather}
use libakio.Buffer.Bytes.{content, read_size-content, append_assoc, append_nil}
use libakio.Buffer.Segment.{
  Item, first, Segment, bytes_of, bytes_of-append, first-append, Segment-append, load-run,
}
use libakio.Buffer.State.{AllBuffers, AllBuffers-append, IsChain, chain_bytes}

gather-step :
    (room : ℕ) (cells : Cells) (p : Ptr) (c : Cell) (ys : List ℕ) (total : ℕ)
    → p ≢ null
    → load cells p ≡ ok c
    → gather room cells c.next ≡ ok (ys, total)
    → gather (suc room) cells p ≡ ok (content c.buffer ++ ys, read_size c.buffer + total)
unfolding gather
gather-step room cells p c ys total ne l g = rw (ne→==-false p null ne, l, g) refl

-- The entries of `vec` are the first bytes of the buffers.
gather-first :
    (room : ℕ) (cells : Cells) (xs : List Item)
    → Segment cells xs null
    → AllBuffers xs
    → (ys zs : List ℕ) × (gather room cells (first xs null) ≡ ok (ys, length ys))
      × (bytes_of xs ≡ ys ++ zs)
unfolding gather
gather-first zero cells xs seg good = ([], bytes_of xs, refl, refl)
gather-first (suc room) cells [] seg good = ([], [], refl, refl)
gather-first (suc room) cells (x ∷ xs) ((valid, here), seg) (good, goods) =
    let (ys, zs, run, parts) = gather-first room cells xs seg goods in
    let total : read_size x.buffer + length ys ≡ length (content x.buffer ++ ys) =
      omega (arith, read_size-content x.buffer good, length-append (content x.buffer) ys) in
    (
      content x.buffer ++ ys,
      zs,
      gather-step room cells x.addr (record { buffer = x.buffer; next = first xs null }) ys
            (length ys) valid (load-run cells x.addr x.buffer (first xs null) (valid, here)) run
          ∙ ap (λ (n : ℕ). ok (content x.buffer ++ ys, n)) total,
      ap (◌++◌ (content x.buffer)) parts ∙ sym (append_assoc (content x.buffer) ys zs),
    )

pub chain_gather :
    (s : Store) (chain : Chain) (front : List Item) (w : Item) (ys : List Item)
    → IsChain s chain front w ys
    → (out rest : List ℕ) × (gather max_iov s.cells chain.rbuf ≡ ok (out, length out))
      × (chain_bytes front w ≡ out ++ rest)
chain_gather s chain front w ys state =
    let (out, rest, run, parts) =
      gather-first max_iov s.cells (front ++ w ∷ [])
        (Segment-append s.cells front (w ∷ []) null state.segment (state.at_end, tt))
        (AllBuffers-append front w state.buffers state.buffer) in
    let at_front : first (front ++ w ∷ []) null ≡ chain.rbuf =
      first-append front (w ∷ []) null ∙ sym state.read_first in
    (
      out,
      rest,
      ap (gather max_iov s.cells) (sym at_front) ∙ run,
      ap (◌++◌ (bytes_of front)) (sym (append_nil (content w.buffer)))
          ∙ sym (bytes_of-append front (w ∷ []))
          ∙ parts,
    )

-- the first buffer of the chain is there
pub first-IsAt :
    (s : Store) (chain : Chain) (front : List Item) (w : Item) (ys : List Item)
    → IsChain s chain front w ys
    → (c : Cell) × (load s.cells chain.rbuf ≡ ok c)
first-IsAt s chain [] w ys state = (
  record { buffer = w.buffer; next = null },
  rw state.read_first (load-run s.cells w.addr w.buffer null state.at_end),
)
first-IsAt s chain (x ∷ xs) w ys state = (
  record { buffer = x.buffer; next = first xs w.addr },
  rw state.read_first (load-run s.cells x.addr x.buffer (first xs w.addr) state.segment.0),
)
