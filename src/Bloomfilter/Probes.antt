-- ===== src/Bloomfilter/Probes.antt =====
-- What the loops of `bloomfilter_add` and `bloomfilter_check` (bloomfilter/bloomfilter.c) do to
-- the bits.
use libakio.Prelude.{
  ℕ, zero, suc, ◌+◌, ◌%◌, ◌<◌, ◌≡◌, ◌↔◌, refl, ◌∙◌, Bool, true, false, ◌||◌, none, some, arith,
  ◌==◌, if◌then◌else◌, ok, Returns, wrap, Bool-cases, inl, inr,
}
use libakio.Bitset
use libakio.Bitset.{Bitset}
use libakio.Bitset.Valid.{IsValid, bit}
use libakio.Bitset.Access.{Sets, set-Sets, get-bit}
use libakio.Bloomfilter.{bitpos, add_loop, check_loop}

-- whether bit `m` is probed in the rounds left
unfoldable pub probed : ℕ → ℕ → ℕ → ℕ → ℕ → Bool
probed zero nbits h d m = false
probed (suc rounds) nbits h d m =
    wrap 32 (h % nbits) == m || probed rounds nbits (wrap 32 (h + d)) d m

bitpos-lt :
    (h nbits : ℕ)
    → 0 < nbits
    → (bitpos h nbits ≡ ok (wrap 32 (h % nbits))) × (wrap 32 (h % nbits) < nbits)
unfolding bitpos
bitpos-lt h zero pos = elim pos [ ]
bitpos-lt h (suc n) pos = (refl, omega arith)

-- `r` is `s` with the bits of `on` set.
pub record Turned (s : Bitset) (on : ℕ → Bool) (r : Bitset) : Type 0 where
  pub valid : IsValid r
  pub length : r.length ≡ s.length
  pub bits : (m : ℕ) → m < s.length → bit r m ≡ (if on m then 1 else bit s m)

module _ (nbits d : ℕ) (pos : 0 < nbits) where
  add_step :
      (rounds h p old : ℕ) (s r t : Bitset)
      → bitpos h nbits ≡ ok p
      → Bitset.set (some s) p 1 ≡ ok (old, some r)
      → add_loop rounds nbits (wrap 32 (h + d)) d (some r) ≡ ok (some t)
      → add_loop (suc rounds) nbits h d (some s) ≡ ok (some t)
  unfolding add_loop
  add_step rounds h p old s r t e f g = rw (e, f, g)

  Turned-step :
      (rounds h : ℕ) (s r t : Bitset)
      → Sets s (wrap 32 (h % nbits)) 1 r
      → Turned r (probed rounds nbits (wrap 32 (h + d)) d) t
      → Turned s (probed (suc rounds) nbits h d) t
  unfolding probed
  Turned-step rounds h s r t sets turned = record {
    valid = turned.valid;
    length = turned.length ∙ sets.length;
    bits = λ m lt. ground (arith, turned.bits m (omega (arith, sets.length)), sets.bits m lt);
  }

  -- The loop of `bloomfilter_add` ends, and sets exactly the probed bits.
  pub add_loop-Turned :
      (rounds h : ℕ) {s : Bitset}
      → IsValid s
      → s.length ≡ nbits
      → (r : Bitset) × (add_loop rounds nbits h d (some s) ≡ ok (some r))
        × Turned s (probed rounds nbits h d) r
  unfolding probed add_loop
  add_loop-Turned zero h {s} v e =
      (s, refl, record { valid = v; length = refl; bits = λ m lt. refl })
  add_loop-Turned (suc rounds) h {s} v e =
      let (at, lt) = bitpos-lt h nbits pos in
      let (r, run, sets) = set-Sets v (wrap 32 (h % nbits)) 1 (omega arith) (omega arith) in
      let (t, rest, turned) =
        add_loop-Turned rounds (wrap 32 (h + d)) sets.valid (sets.length ∙ e) in
      (t, add_step rounds h _ _ s r t at run rest, Turned-step rounds h s r t sets turned)

  -- The loop of `bloomfilter_check` ends in 1 if every probed bit is set, and in 0 if not.
  pub check_loop_iff :
      (rounds h : ℕ) {s : Bitset}
      → IsValid s
      → s.length ≡ nbits
      → Returns (check_loop rounds nbits h d (some s)) λ t.
        (t < 2) × ((t ≡ 1) ↔ ((m : ℕ) → m < nbits → probed rounds nbits h d m ≡ true → bit s m ≡ 1))
  unfolding probed check_loop
  check_loop_iff zero h v e = (1, refl, (omega arith, ((λ _ m lt. cc), λ _. refl)))
  check_loop_iff (suc rounds) h {s} v e =
      let p : ℕ = wrap 32 (h % nbits) in
      let (at, lt) = bitpos-lt h nbits pos in
      let seen = get-bit v p (omega arith) in
      let (t, rest, (small, same)) = check_loop_iff rounds (wrap 32 (h + d)) v e in
      elim (Bool-cases (bit s p == 1)) [
        | inl one ↦ (
          t,
          rw (at, seen, one, rest),
          (
            small,
            (
              (λ one' m in_set on. ground (arith, same.0 one' m in_set)),
              λ all. same.1 (λ m in_set on. ground (arith, all m in_set)),
            ),
          ),
        )
        | inr other ↦ (
          0,
          rw (at, seen, other),
          (omega arith, ((λ z. absurd (omega arith)), λ all. ground (arith, all p lt))),
        )
      ]

  -- On a NULL bitset the first loop does nothing, and the second finds a 0 in its first round.
  pub add_loop-null : (rounds h : ℕ) → add_loop rounds nbits h d none ≡ ok none
  unfolding add_loop Bitset.set
  add_loop-null zero h = refl
  add_loop-null (suc rounds) h =
      rw (bitpos-lt h nbits pos).0 (add_loop-null rounds (wrap 32 (h + d)))

  pub check_loop-null : (rounds h : ℕ) → 0 < rounds → check_loop rounds nbits h d none ≡ ok 0
  unfolding check_loop Bitset.get
  check_loop-null zero h some_rounds = elim some_rounds [ ]
  check_loop-null (suc rounds) h some_rounds = rw (bitpos-lt h nbits pos).0
