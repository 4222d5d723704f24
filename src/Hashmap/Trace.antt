-- ===== src/Hashmap/Trace.antt =====
-- The rounds of a probing loop of hashmap/hashmap.c that ended, and what a changed entry does to them.
use libakio.Prelude.{
  ℕ, zero, suc, ◌≡◌, ◌≢◌, ◌⊎◌, inl, inr, refl, sym, ap, ◌∙◌, arith, Option, none, some, List, set,
  shr, read, ok, fault, read-set_self, read-set_ne, Run-cases, Option-cases, Bool-cases, ◌==◌,
  ==_iff,
}
use libakio.Hashmap.{Entry, Ends, ends, faults, out_of_fuel, ◌>>=◌, mask, next_index, probe}

module _ {A : Type 0} where
  pub ends_inj : {x y : A} → ends x ≡ ends y → x ≡ y
  ends_inj {x} e = ap (λ (r : Ends A). elim r [ ends z ↦ z | faults ↦ x | out_of_fuel ↦ x ]) e

  pub Ends-cases : (r : Ends A) → ((r ≡ faults) ⊎ (r ≡ out_of_fuel)) ⊎ ((a : A) × (r ≡ ends a))
  Ends-cases faults = inl (inl refl)
  Ends-cases out_of_fuel = inl (inr refl)
  Ends-cases (ends a) = inr (a, refl)

  pub faults_ne_ends : {x : A} → faults ≢ ends x
  faults_ne_ends e = cc e

  -- A chain that ended, as its two parts.
  pub bind-ends :
      {B : Type 0} (r : Ends A) (next : A → Ends B) (b : B)
      → (r >>= next) ≡ ends b
      → (a : A) × (r ≡ ends a) × (next a ≡ ends b)
  bind-ends faults next b h = absurd (cc h)
  bind-ends out_of_fuel next b h = absurd (cc h)
  bind-ends (ends a) next b h = (a, refl, h)

-- Two results of one loop stand at one slot.
pub ends_slot :
    {A : Type 0} {i j : ℕ} {a b : A} (r : Ends (ℕ × A)) → r ≡ ends (i, a) → r ≡ ends (j, b) → i ≡ j
ends_slot r at_i at_j = ap (λ (p : ℕ × _). p.0) (ends_inj (sym at_i ∙ at_j))

module _ {A : Type 0} (visit : Entry → Option A) (es : List Entry) (size : ℕ) where
  pub probe-hit :
      (fuel index perturb : ℕ) (e : Entry) (a : A)
      → read es (mask size index) ≡ ok e
      → visit e ≡ some a
      → probe visit (suc fuel) es size index perturb ≡ ends (mask size index, a)
  unfolding probe
  probe-hit fuel index perturb e a here out = rw (probe, here, out) refl

  pub probe-miss :
      (fuel index perturb : ℕ) (e : Entry)
      → read es (mask size index) ≡ ok e
      → visit e ≡ none
      → probe visit (suc fuel) es size index perturb
        ≡ probe visit fuel es size (next_index (mask size index) (shr perturb 5)) (shr perturb 5)
  unfolding probe
  probe-miss fuel index perturb e here out = rw (probe, here, out) refl

  probe-stops :
      (fuel index perturb : ℕ)
      → read es (mask size index) ≡ fault
      → probe visit (suc fuel) es size index perturb ≡ faults
  unfolding probe
  probe-stops fuel index perturb bad = rw (probe, bad) refl

  probe-fault :
      (fuel index perturb slot : ℕ) (a : A)
      → read es (mask size index) ≡ fault
      → probe visit (suc fuel) es size index perturb ≢ ends (slot, a)
  probe-fault fuel index perturb slot a bad h =
      absurd (faults_ne_ends (sym (probe-stops fuel index perturb bad) ∙ h))

  -- The first round of a loop that ends.
  pub first_round :
      (fuel index perturb slot : ℕ) (a : A)
      → probe visit (suc fuel) es size index perturb ≡ ends (slot, a)
      → (e : Entry) × (read es (mask size index) ≡ ok e)
        × (((mask size index ≡ slot) × (visit e ≡ some a))
            ⊎ ((visit e ≡ none)
                × (probe visit fuel es size
                      (next_index (mask size index) (shr perturb 5))
                      (shr perturb 5)
                    ≡ ends (slot, a))))
  first_round fuel index perturb slot a h = elim (Run-cases (read es (mask size index))) [
    | inl bad ↦ absurd (probe-fault fuel index perturb slot a bad h)
    | inr (e, here) ↦ elim (Option-cases (visit e)) [
      | inl out ↦ (e, here, inr (out, sym (probe-miss fuel index perturb e here out) ∙ h))
      | inr (b, out) ↦ (
        e,
        here,
        inl (
            let same : ends (mask size index, b) ≡ ends (slot, a) =
              sym (probe-hit fuel index perturb e b here out) ∙ h in
            (
              ap (λ (r : ℕ × A). r.0) (ends_inj same),
              out ∙ ap some (ap (λ (r : ℕ × A). r.1) (ends_inj same)),
            )),
      )
    ]
  ]

-- A loop that stands at the changed entry where the old one ended, having passed the same entries.
pub trace-change :
    {A B : Type 0} (before : Entry → Option A) (visit : Entry → Option B)
    → ((e : Entry) → before e ≡ none → visit e ≡ none)
    → (es : List Entry) (size : ℕ) (new : Entry) (b : B) → visit new ≡ some b
    → (fuel index perturb slot : ℕ) (a : A)
    → probe before fuel es size index perturb ≡ ends (slot, a)
    → probe visit fuel (set es slot new) size index perturb ≡ ends (slot, b)
unfolding probe
trace-change before visit passes es size new b out zero index perturb slot a h = absurd (cc h)
trace-change before visit passes es size new b out (suc fuel) index perturb slot a h =
    let i : ℕ = mask size index in
    let (e, here, how) = first_round before es size fuel index perturb slot a h in
    let at_new : i ≡ slot
        → probe visit (suc fuel) (set es slot new) size index perturb ≡ ends (slot, b) =
      λ eq.
        probe-hit visit (set es slot new) size fuel index perturb new b
          (rw eq (read-set_self es slot new e (rw (← eq) here))) out
        ∙ rw eq refl in
    elim how [
      | inl (eq, seen) ↦ at_new eq
      | inr (unseen, rest) ↦ elim (Bool-cases (i == slot)) [
        | inl eq ↦ at_new ((==_iff i slot).0 eq)
        | inr ne ↦
            probe-miss visit (set es slot new) size fuel index perturb e
              (read-set_ne es slot i new (ground arith) ∙ here) (passes e unseen)
            ∙ trace-change before visit passes es size new b out fuel _ _ slot a rest
      ]
    ]

-- A loop that passes the changed entry ends as before.
pub trace-frame :
    {A : Type 0} (visit : Entry → Option A) (es : List Entry) (size changed : ℕ) (new : Entry)
    → visit new ≡ none
    → (fuel index perturb slot : ℕ) (a : A) → slot ≢ changed
    → probe visit fuel es size index perturb ≡ ends (slot, a)
    → probe visit fuel (set es changed new) size index perturb ≡ ends (slot, a)
unfolding probe
trace-frame visit es size changed new out zero index perturb slot a ne h = absurd (cc h)
trace-frame visit es size changed new out (suc fuel) index perturb slot a ne h =
    let i : ℕ = mask size index in
    let (e, here, how) = first_round visit es size fuel index perturb slot a h in
    elim how [
      | inl (eq, seen) ↦
          probe-hit visit (set es changed new) size fuel index perturb e a
            (read-set_ne es changed i new (ground arith) ∙ here) seen
          ∙ rw eq refl
      | inr (unseen, rest) ↦
          let later =
            trace-frame visit es size changed new out fuel (next_index i (shr perturb 5))
              (shr perturb 5) slot a ne rest in
          elim (Bool-cases (i == changed)) [
            | inl eq ↦
                probe-miss visit (set es changed new) size fuel index perturb new
                  (let same : i ≡ changed = (==_iff i changed).0 eq in
                    rw same (read-set_self es changed new e (rw (← same) here)))
                  out
                ∙ later
            | inr other ↦
                probe-miss visit (set es changed new) size fuel index perturb e
                  (read-set_ne es changed i new (ground arith) ∙ here) unseen
                ∙ later
          ]
    ]

-- Where a loop ends, the entry is one that the function returns at.
pub trace-found :
    {A : Type 0} (visit : Entry → Option A) (es : List Entry) (size : ℕ)
    → (fuel index perturb slot : ℕ) (a : A)
    → probe visit fuel es size index perturb ≡ ends (slot, a)
    → (e : Entry) × (read es slot ≡ ok e) × (visit e ≡ some a)
unfolding probe
trace-found visit es size zero index perturb slot a h = absurd (cc h)
trace-found visit es size (suc fuel) index perturb slot a h =
    let (e, here, how) = first_round visit es size fuel index perturb slot a h in
    elim how [
      | inl (eq, seen) ↦ (e, rw (← eq) here, seen)
      | inr (unseen, rest) ↦ trace-found visit es size fuel _ _ slot a rest
    ]

-- A loop that passes what another passes, and returns where the other does, ends at the same slot.
pub trace-same :
    {A B : Type 0} (before : Entry → Option A) (visit : Entry → Option B) (a : A) (b : Entry → B)
    → (es : List Entry) (size : ℕ)
    → ((i : ℕ) (e : Entry) → read es i ≡ ok e → before e ≡ none → visit e ≡ none)
    → ((e : Entry) → before e ≡ some a → visit e ≡ some (b e))
    → (fuel index perturb slot : ℕ) → probe before fuel es size index perturb ≡ ends (slot, a)
    → (e : Entry) × (read es slot ≡ ok e)
      × (before e ≡ some a)
      × (probe visit fuel es size index perturb ≡ ends (slot, b e))
unfolding probe
trace-same before visit a b es size passes stops zero index perturb slot h = absurd (cc h)
trace-same before visit a b es size passes stops (suc fuel) index perturb slot h =
    let (e, here, how) = first_round before es size fuel index perturb slot a h in
    elim how [
      | inl (eq, seen) ↦ (
        e,
        rw (← eq) here,
        seen,
        probe-hit visit es size fuel index perturb e (b e) here (stops e seen) ∙ rw eq refl,
      )
      | inr (unseen, rest) ↦
          let (found, there, seen, run) =
            trace-same before visit a b es size passes stops fuel _ _ slot rest in
          (
            found,
            there,
            seen,
            probe-miss visit es size fuel index perturb e here
                  (passes (mask size index) e here unseen)
                ∙ run,
          )
    ]
