-- ===== src/Buffer/Relay.antt =====
-- The two directions of a chain of kznet/buffer.c together, and a chain without a buffer to grow by.
use libakio.Prelude.{
  ℕ, ◌+◌, ◌<◌, ◌≤◌, ◌≡◌, refl, sym, ◌∙◌, arith, List, [], ◌∷◌, ◌++◌, length, ==_iff, Run, ok, fault,
  ◌>>=◌,
}
use libakio.Buffer.{Store, allocate, peek}
use libakio.Buffer.Memory.{Ptr, null, Cell, load}
use libakio.Buffer.Chain.{Chain, Input, Output, recv_loop, recv, send}
use libakio.Buffer.Segment.{Item, load-run}
use libakio.Buffer.State.{IsChain, chain_bytes}
use libakio.Buffer.Recv.{recv-IsChain}
use libakio.Buffer.Send.{send-IsSent}
use libakio.Buffer.Peek.{peek-new}

-- A call of `buffer_chain_recv` and then one of `buffer_chain_send`.
abbrev pub relay :
    List Input → List Output → ℕ → Store → Chain → Run (List ℕ × List ℕ × Store × Chain)
relay inputs outputs fuel s chain = do
  (received, taken, s', chain') ← recv inputs s chain
  (sent, gone, s'', chain'') ← send fuel outputs s' chain'
  ok (taken, gone, s'', chain'')

-- After buffer_chain_recv and then buffer_chain_send on a well-formed chain, with a buffer for
-- every answer of readv and fuel for more rounds of shrink_chain than there are answers and
-- buffers before the last one, the old bytes of the chain and those that came in are those that
-- went out and those that the chain then holds: none is lost, doubled or out of order.
pub relay-bytes :
    (inputs : List Input) (outputs : List Output) (fuel : ℕ) (s : Store) (chain : Chain)
    (front : List Item) (w : Item) (ys : List Item)
    → IsChain s chain front w ys
    → length inputs ≤ length ys + length s.blocks
    → length front + length inputs < fuel
    → (taken gone : List ℕ) × (s' : Store) × (chain' : Chain) × (front' : List Item) × (w' : Item)
      × (ys' : List Item) × (relay inputs outputs fuel s chain ≡ ok (taken, gone, s', chain'))
      × IsChain s' chain' front' w' ys'
      × (chain_bytes front w ++ taken ≡ gone ++ chain_bytes front' w')
relay-bytes inputs outputs fuel s chain front w ys state room enough =
    let (received, taken, s1, chain1, front1, w1, ys1, run1, state1, bytes1, counted1, short1) =
      recv-IsChain inputs s chain front w ys state room in
    let (sent, gone, s2, chain2, front2, w2, ys2, run2, state2, bytes2, counted2) =
      send-IsSent fuel outputs s1 chain1 front1 w1 ys1 state1 (omega (arith, short1)) in
    (taken, gone, s2, chain2, front2, w2, ys2, rw (run1, run2) refl, state2, sym bytes1 ∙ bytes2)

recv_loop-null :
    (input : Input) (inputs : List Input) (taken : List ℕ) (s s1 : Store) (chain : Chain)
    (cw : Cell)
    → load s.cells chain.wbuf ≡ ok cw
    → peek s ≡ (null, s1)
    → recv_loop (input ∷ inputs) taken s chain ≡ fault
unfolding recv_loop load
recv_loop-null input inputs taken s s1 chain cw l p = rw (l, p) refl

allocate-null :
    (s : Store) (blocks : List (Ptr × List ℕ)) → blocks ≡ [] → allocate s blocks ≡ (null, s)
unfolding allocate
allocate-null s blocks e = rw e refl

-- With an empty pool and a malloc that fails, buffer_chain_recv on a well-formed chain faults
-- before its first readv.
pub recv-fault :
    (input : Input) (inputs : List Input) (s : Store) (chain : Chain) (front : List Item) (w : Item)
    → IsChain s chain front w []
    → s.blocks ≡ []
    → recv (input ∷ inputs) s chain ≡ fault
unfolding recv
recv-fault input inputs s chain front w state empty =
    recv_loop-null input inputs [] s s (record chain { recv = 0 })
      (record { buffer = w.buffer; next = null })
      (rw state.write_last (load-run s.cells w.addr w.buffer null state.at_end))
      (peek-new s ((==_iff s.pool.head null).1 state.pool.head) ∙ allocate-null s s.blocks empty)
