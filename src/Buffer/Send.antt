-- ===== src/Buffer/Send.antt =====
-- buffer_chain_send of kznet/buffer.c: the bytes that go out are the first ones of the chain.
use libakio.Prelude.{
  ℕ, ℤ, pos, negsuc, ◌<◌, ◌≡◌, inl, inr, refl, sym, ap, ◌∙◌, arith, Option, none, some, List, [],
  ◌∷◌, ◌++◌, length, drop, ltb, Option-cases, if◌then◌else◌, ok, wrap,
}
use libakio.Buffer.{Store}
use libakio.Buffer.Memory.{take}
use libakio.Buffer.Chain.{
  Chain, Output, took, no_output, write_interrupted, write_failed, max_iov, gather, advance,
  send_loop, send,
}
use libakio.Buffer.Bytes.{take-drop, append_assoc, length-take}
use libakio.Buffer.Segment.{Item}
use libakio.Buffer.State.{IsChain, IsChain-same, chain_bytes}
use libakio.Buffer.Gather.{chain_gather}
use libakio.Buffer.Advance.{IsSent, advance-IsSent}

send-return :
    (fuel : ℕ) (k : ℕ) (outputs : List Output) (gone ys : List ℕ) (total : ℕ) (s s' : Store)
    (chain chain' : Chain) (r : ℤ)
    → gather max_iov s.cells chain.rbuf ≡ ok (ys, total)
    → advance fuel s chain (if ltb total k then total else k) total ≡ ok (some r, s', chain')
    → send_loop fuel (took k ∷ outputs) gone s chain
      ≡ ok (some r, gone ++ take (if ltb total k then total else k) ys, s', chain')
unfolding send_loop
send-return fuel k outputs gone ys total s s' chain chain' r g a = rw (g, a) refl

send-again :
    (fuel : ℕ) (k : ℕ) (outputs : List Output) (gone ys : List ℕ) (total : ℕ) (s s' : Store)
    (chain chain' : Chain)
    → gather max_iov s.cells chain.rbuf ≡ ok (ys, total)
    → advance fuel s chain (if ltb total k then total else k) total ≡ ok (none, s', chain')
    → send_loop fuel (took k ∷ outputs) gone s chain
      ≡ send_loop fuel outputs (gone ++ take (if ltb total k then total else k) ys) s' chain'
unfolding send_loop
send-again fuel k outputs gone ys total s s' chain chain' g a = rw (g, a) refl

send-other :
    (fuel : ℕ) (outputs : List Output) (gone ys : List ℕ) (total : ℕ) (s : Store) (chain : Chain)
    → gather max_iov s.cells chain.rbuf ≡ ok (ys, total)
    → (send_loop fuel (no_output ∷ outputs) gone s chain ≡ ok (some (pos 1), gone, s, chain))
      × (send_loop fuel (write_interrupted ∷ outputs) gone s chain
          ≡ send_loop fuel outputs gone s chain)
      × (send_loop fuel (write_failed ∷ outputs) gone s chain
          ≡ ok (some (negsuc 0), gone, s, chain))
unfolding send_loop
send-other fuel outputs gone ys total s chain g = (rw g refl, rw g refl, rw g refl)

-- What `writev` takes of what it is given.
taken_part :
    (total k : ℕ) (ys : List ℕ)
    → length ys ≡ total
    → (if ltb total k then total else k) ≡ length (take (if ltb total k then total else k) ys)
taken_part total k ys size =
    sym (length-take (if ltb total k then total else k) ys (ground (arith, size)))

send_loop-IsSent :
    (fuel : ℕ) (outputs : List Output) (s : Store) (chain : Chain) (front : List Item) (w : Item)
    (ys : List Item) (bytes gone : List ℕ)
    → IsSent s chain bytes gone fuel front w ys
    → (result : Option ℤ) × (gone' : List ℕ) × (s' : Store) × (chain' : Chain) × (front' : List
        Item)
      × (w' : Item) × (ys' : List Item) × (send_loop fuel outputs gone s chain
          ≡ ok (result, gone', s', chain'))
      × IsSent s' chain' bytes gone' fuel front' w' ys'
unfolding send_loop
send_loop-IsSent fuel [] s chain front w ys bytes gone before =
    (none, gone, s, chain, front, w, ys, refl, before)
send_loop-IsSent fuel (no_output ∷ outputs) s chain front w ys bytes gone before =
    let (out, rest, run, parts) = chain_gather s chain front w ys before.state in
    (
      some (pos 1),
      gone,
      s,
      chain,
      front,
      w,
      ys,
      (send-other fuel outputs gone out (length out) s chain run).0,
      before,
    )
send_loop-IsSent fuel (write_failed ∷ outputs) s chain front w ys bytes gone before =
    let (out, rest, run, parts) = chain_gather s chain front w ys before.state in
    (
      some (negsuc 0),
      gone,
      s,
      chain,
      front,
      w,
      ys,
      (send-other fuel outputs gone out (length out) s chain run).2,
      before,
    )
send_loop-IsSent fuel (write_interrupted ∷ outputs) s chain front w ys bytes gone before =
    let (out, rest, run, parts) = chain_gather s chain front w ys before.state in
    let (result, gone', s', chain', front', w', ys', go, done) =
      send_loop-IsSent fuel outputs s chain front w ys bytes gone before in
    (
      result,
      gone',
      s',
      chain',
      front',
      w',
      ys',
      (send-other fuel outputs gone out (length out) s chain run).1 ∙ go,
      done,
    )
send_loop-IsSent fuel (took k ∷ outputs) s chain front w ys bytes gone before =
    let (out, rest, run, parts) = chain_gather s chain front w ys before.state in
    let rv : ℕ = if ltb (length out) k then length out else k in
    let sent : List ℕ = take rv out in
    let size : rv ≡ length sent = taken_part (length out) k out refl in
    let split : chain_bytes front w ≡ sent ++ (drop rv out ++ rest) =
      parts
      ∙ ap (λ (z : List ℕ). z ++ rest) (sym (take-drop rv out))
      ∙ append_assoc sent (drop rv out) rest in
    let (verdict, s1, chain1, front1, w1, ys1, go, done) =
      advance-IsSent fuel s chain front w ys bytes gone sent (drop rv out ++ rest) (length out)
        before split in
    let go' : advance fuel s chain rv (length out) ≡ ok (verdict, s1, chain1) =
      ap (λ (n : ℕ). advance fuel s chain n (length out)) size ∙ go in
    elim (Option-cases verdict) [
      | inr (r, returns) ↦ (
        some r,
        gone ++ sent,
        s1,
        chain1,
        front1,
        w1,
        ys1,
        send-return fuel k outputs gone out (length out) s s1 chain chain1 r run
            (go' ∙ ap (λ (o : Option ℤ). ok (o, s1, chain1)) returns),
        done,
      )
      | inl again ↦
          let (result, gone', s', chain', front', w', ys', rest_run, result_done) =
            send_loop-IsSent fuel outputs s1 chain1 front1 w1 ys1 bytes (gone ++ sent) done in
          (
            result,
            gone',
            s',
            chain',
            front',
            w',
            ys',
            send-again fuel k outputs gone out (length out) s s1 chain chain1 run
                  (go' ∙ ap (λ (o : Option ℤ). ok (o, s1, chain1)) again)
                ∙ rest_run,
            result_done,
          )
    ]

-- On a well-formed chain, for any answers of writev, and with fuel for as many rounds of
-- shrink_chain as the chain has buffers, buffer_chain_send runs without a fault; the bytes that go
-- out are the first ones of the chain, in order, the chain holds the others and stays well formed
-- with its pool, and sent counts the bytes that went out.
pub send-IsSent :
    (fuel : ℕ) (outputs : List Output) (s : Store) (chain : Chain) (front : List Item) (w : Item)
    (ys : List Item)
    → IsChain s chain front w ys
    → length front < fuel
    → (result : Option ℤ) × (gone : List ℕ) × (s' : Store) × (chain' : Chain) × (front' : List Item)
      × (w' : Item) × (ys' : List Item) × (send fuel outputs s chain
          ≡ ok (result, gone, s', chain'))
      × IsChain s' chain' front' w' ys'
      × (chain_bytes front w ≡ gone ++ chain_bytes front' w')
      × (chain'.sent ≡ wrap 64 (length gone))
unfolding send
send-IsSent fuel outputs s chain front w ys state enough =
    let (result, gone, s', chain', front', w', ys', run, done) =
      send_loop-IsSent fuel outputs s (record chain { sent = 0 }) front w ys (chain_bytes front w)
        []
        (record {
          state = IsChain-same s chain (record chain { sent = 0 }) front w ys refl refl state;
          parts = refl;
          counted = refl;
          shorter = enough;
        }) in
    (result, gone, s', chain', front', w', ys', run, done.state, done.parts, done.counted)
