-- ===== src/Buffer/Advance.antt =====
-- One round of buffer_chain_send of kznet/buffer.c in which bytes went out.
use libakio.Prelude.{
  ℕ, ℤ, pos, ◌+◌, ◌<◌, ◌≡◌, refl, sym, ap, ◌∙◌, arith, false, not, ◌||◌, Option, none, some, List,
  [], ◌∷◌, ◌++◌, length, length-append, drop, ◌==◌, if◌then◌else◌, ok, wrap,
}
use libakio.Buffer.{Store}
use libakio.Buffer.Memory.{Cell, load}
use libakio.Buffer.Chain.{Chain, shrink, advance}
use libakio.Buffer.Bytes.{append_assoc, append_nil, drop_exact}
use libakio.Buffer.Segment.{Item}
use libakio.Buffer.State.{IsChain, IsChain-same, chain_bytes}
use libakio.Buffer.Shrink.{shrink-IsShrunk}
use libakio.Buffer.Gather.{first-IsAt}

-- What a call leaves of a chain that held `bytes`: `gone` of them have gone out.
pub record IsSent (s' : Store) (chain' : Chain) (bytes gone : List ℕ) (bound : ℕ)
    (front' : List Item) (w' : Item) (ys' : List Item) : Type 0 where
  pub state : IsChain s' chain' front' w' ys'
  pub parts : bytes ≡ gone ++ chain_bytes front' w'
  pub counted : chain'.sent ≡ wrap 64 (length gone)
  pub shorter : length front' < bound

advance-zero :
    (fuel : ℕ) (s : Store) (chain : Chain) (total : ℕ)
    → advance fuel s chain 0 total ≡ ok (some (pos 0), s, chain)
unfolding advance
advance-zero fuel s chain total = refl

advance-step :
    (fuel : ℕ) (s s' : Store) (chain chain' : Chain) (rv total : ℕ) (c : Cell)
    → (rv == 0) ≡ false
    → shrink fuel s (record chain { sent = wrap 64 (chain.sent + rv) }) rv
      ≡ ok (chain'.rbuf, s', chain')
    → load s'.cells chain'.rbuf ≡ ok c
    → advance fuel s chain rv total
      ≡ ok (
        if not (rv == total) || (c.buffer.read_at == c.buffer.last) then some (pos 1) else none,
        s',
        chain',
      )
unfolding advance
advance-step fuel s s' chain chain' rv total c some_bytes sh l = rw (some_bytes, sh, l) refl

-- One round in which `writev` took the bytes `out`.
pub advance-IsSent :
    (fuel : ℕ) (s : Store) (chain : Chain) (front : List Item) (w : Item) (ys : List Item)
    (bytes gone out rest : List ℕ) (total : ℕ)
    → IsSent s chain bytes gone fuel front w ys
    → chain_bytes front w ≡ out ++ rest
    → (verdict : Option ℤ) × (s' : Store) × (chain' : Chain) × (front' : List Item) × (w' : Item)
      × (ys' : List Item) × (advance fuel s chain (length out) total ≡ ok (verdict, s', chain'))
      × IsSent s' chain' bytes (gone ++ out) fuel front' w' ys'
advance-IsSent fuel s chain front w ys bytes gone [] rest total before parts = (
  some (pos 0),
  s,
  chain,
  front,
  w,
  ys,
  advance-zero fuel s chain total,
  record {
    state = before.state;
    parts = before.parts ∙ ap (λ (z : List ℕ). z ++ chain_bytes front w) (sym (append_nil gone));
    counted = before.counted ∙ ap (λ (z : List ℕ). wrap 64 (length z)) (sym (append_nil gone));
    shorter = before.shorter;
  },
)
advance-IsSent fuel s chain front w ys bytes gone (o ∷ os) rest total before parts =
    let out : List ℕ = o ∷ os in
    let counted : Chain = record chain { sent = wrap 64 (chain.sent + length out) } in
    let state : IsChain s counted front w ys =
      IsChain-same s chain counted front w ys refl refl before.state in
    let (s', chain', front', w', ys', run, done) =
      shrink-IsShrunk fuel s counted front w ys (length out) state before.shorter
        (omega (arith, ap (λ (z : List ℕ). length z) parts, length-append out rest)) in
    let (c, loaded) = first-IsAt s' chain' front' w' ys' done.state in
    (
      _,
      s',
      chain',
      front',
      w',
      ys',
      advance-step fuel s s' chain chain' (length out) total c (ground arith) run loaded,
      record {
        state = done.state;
        parts =
            before.parts
            ∙ ap (◌++◌ gone) (
                parts
                ∙ ap (◌++◌ out)
                    (sym (done.left ∙ ap (drop (length out)) parts ∙ drop_exact out rest)))
            ∙ sym (append_assoc gone out (chain_bytes front' w'));
        counted = omega (arith, done.sent, before.counted, length-append gone out);
        shorter = omega (arith, done.shorter, before.shorter);
      },
    )
