-- ===== src/Hashmap/Reach.antt =====
-- The loops of hashmap/hashmap.c end: the probe sequence of a table whose size is a power of two
-- comes to every slot.
use native.Mathlib.Nat.{mul-add-mod_self_left, div-add-mod, mod-lt, mod-mod, mod-eq_of_lt}
use libakio.Prelude.{
  ℕ, zero, suc, ◌+◌, ◌*◌, ◌/◌, ◌%◌, ◌^◌, ◌<◌, ◌≤◌, ◌≡◌, inl, inr, refl, sym, ap, ◌∙◌, arith, Option,
  some, List, length, get_or, shr, read, read-in, Option-cases,
}
use libakio.Hashmap.{Entry, ends, null_entry, next_index, probe, settle}
use libakio.Hashmap.Cycle.{walk, walk_meets}
use libakio.Hashmap.Path.{mask_mod, pow_pos}

walk-shift : (n x : ℕ) → walk (suc n) x ≡ walk n (5 * x + 1)
unfolding walk
walk-shift zero x = refl
walk-shift (suc n) x = omega (arith, walk-shift n x)

step-mod : (m x : ℕ) → (5 * x + 1) % m ≡ (5 * (x % m) + 1) % m
step-mod m x =
    let parts : 5 * x + 1 ≡ m * (5 * (x / m)) + (5 * (x % m) + 1) =
      omega (arith, ap (λ (t : ℕ). 5 * t) (div-add-mod x m)) in
    ap (λ (t : ℕ). t % m) parts ∙ mul-add-mod_self_left m (5 * (x / m)) (5 * (x % m) + 1)

walk-mod : (m n x : ℕ) → walk n x % m ≡ walk n (x % m) % m
unfolding walk
walk-mod m zero x = sym (mod-mod x m)
walk-mod m (suc n) x =
    step-mod m (walk n x)
    ∙ ap (λ (t : ℕ). (5 * t + 1) % m) (walk-mod m n x)
    ∙ sym (step-mod m (walk n (x % m)))

module _ {A : Type 0} (visit : Entry → Option A) (k : ℕ) (entrys : List Entry)
    (full : length entrys ≡ 2 ^ k) where
  -- the loop ends at some slot
  abbrev pub Finds : ℕ → ℕ → ℕ → Type 0
  Finds fuel index perturb =
      (slot : ℕ) × (a : A) × (probe visit fuel entrys (2 ^ k) index perturb ≡ ends (slot, a))

  abbrev at : ℕ → Option A
  at slot = visit (get_or entrys slot null_entry)

  probe-round :
      (fuel index perturb : ℕ)
      → probe visit (suc fuel) entrys (2 ^ k) index perturb
        ≡ settle (index % 2 ^ k) (at (index % 2 ^ k)) (
            probe visit fuel entrys
              (2 ^ k)
              (next_index (index % 2 ^ k) (shr perturb 5))
              (shr perturb 5))
  unfolding probe read
  probe-round fuel index perturb =
      rw
        (
          probe,
          mask_mod k index,
          read-in entrys (index % 2 ^ k) null_entry (rw full (mod-lt index (pow_pos k))),
          mask_mod k index,
        )
        refl

  -- One round: the loop ends at once, or where it ends from the next index.
  round-Finds :
      (fuel index perturb : ℕ)
      → Finds fuel (next_index (index % 2 ^ k) (shr perturb 5)) (shr perturb 5)
      → Finds (suc fuel) index perturb
  round-Finds fuel index perturb (slot, a, e) = elim (Option-cases (at (index % 2 ^ k))) [
    | inl out ↦ (slot, a, probe-round fuel index perturb ∙ rw out e)
    | inr (b, out) ↦ (index % 2 ^ k, b, probe-round fuel index perturb ∙ rw out refl)
  ]

  module _ (small : 2 ^ k ≤ 2 ^ 60) where
    next-walk :
        (n index : ℕ) → walk n (next_index (index % 2 ^ k) 0) % 2 ^ k ≡ walk (suc n) index % 2 ^ k
    next-walk n index =
        let below : index % 2 ^ k < 2 ^ k = mod-lt index (pow_pos k) in
        let plain : next_index (index % 2 ^ k) 0 ≡ 5 * (index % 2 ^ k) + 1 = omega arith in
        rw (plain, ← walk-shift n (index % 2 ^ k)) (sym (walk-mod (2 ^ k) (suc n) index))

    -- Without perturbation the loop comes to the slot of every step of the walk.
    walk-Finds :
        (n fuel index : ℕ) (a : A)
        → n < fuel
        → at (walk n index % 2 ^ k) ≡ some a
        → Finds fuel index 0
    unfolding walk
    walk-Finds n zero index a lt hit = absurd (omega arith)
    walk-Finds zero (suc fuel) index a lt hit =
        (index % 2 ^ k, a, probe-round fuel index 0 ∙ rw hit refl)
    walk-Finds (suc n) (suc fuel) index a lt hit = round-Finds fuel index 0 (
        walk-Finds n fuel (next_index (index % 2 ^ k) 0) a (omega arith)
          (rw (next-walk n index) hit))

    -- `rounds` rounds wear the perturbation off.
    pub probe-Finds :
        (rounds fuel index perturb slot : ℕ) (a : A)
        → perturb < 32 ^ rounds
        → rounds + 2 ^ k ≤ fuel
        → slot < 2 ^ k
        → at slot ≡ some a
        → Finds fuel index perturb
    probe-Finds zero fuel index (suc perturb) slot a worn enough inside hit = absurd (omega arith)
    probe-Finds zero fuel index zero slot a worn enough inside hit =
        let (n, lt, meets) = walk_meets k index slot in
        let here : walk n index % 2 ^ k ≡ slot = meets ∙ mod-eq_of_lt inside in
        walk-Finds n fuel index a (omega arith) (rw here hit)
    probe-Finds (suc rounds) zero index perturb slot a worn enough inside hit = absurd (omega arith)
    probe-Finds (suc rounds) (suc fuel) index perturb slot a worn enough inside hit =
        round-Finds fuel index perturb (
          probe-Finds rounds fuel (next_index (index % 2 ^ k) (shr perturb 5)) (shr perturb 5) slot
            a (omega arith) (omega arith) inside hit)
