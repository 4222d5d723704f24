-- ===== src/Timer/Sink.antt =====
-- The array of _shift_down in kznet/timer.c, apart from the memory of timers.
use libakio.Prelude.{
  ℕ, zero, suc, ◌+◌, ◌-◌, ◌*◌, ◌<◌, ◌≤◌, ◌≡◌, ◌≢◌, inl, inr, refl, sym, ap, ◌∙◌, arith, List,
  length, set, length-set, true, false, ltb, leb, ◌==◌, ==_iff, Bool-cases, if◌then◌else◌, ltb→lt,
  ltb-false→le,
}
use libakio.Timer.{parent}
use libakio.Timer.Memory.{Ptr}
use libakio.Timer.Climb.{at, IsHeap, at-set_self, at-set_ne, filled, set-all}

module _ (when : Ptr → ℕ) (n : ℕ) where
  -- the child that `_shift_down` compares with
  abbrev pub pick : List Ptr → ℕ → ℕ
  pick tes h =
      if 2 * (h + 1) == n
      then 2 * (h + 1) - 1
      else if ltb (when (at tes (2 * (h + 1) - 1))) (when (at tes (2 * (h + 1))))
      then 2 * (h + 1) - 1
      else 2 * (h + 1)

  -- What the code relies on of the child: it is one, and due no later than the other.
  pub record IsPick (tes : List Ptr) (h c : ℕ) : Type 0 where
    pub inside : c < n
    pub deeper : h < c
    pub child : parent c ≡ h
    pub least : (i : ℕ) → 0 < i → i < n → parent i ≡ h → when (at tes c) ≤ when (at tes i)

  pub pick-IsPick : (tes : List Ptr) (h : ℕ) → 2 * (h + 1) ≤ n → IsPick tes h (pick tes h)
  pick-IsPick tes h le =
      let left : ℕ = 2 * (h + 1) - 1 in
      let right : ℕ = 2 * (h + 1) in
      let two : (i : ℕ) → 0 < i → parent i ≡ h → i ≢ left → i ≡ right =
        λ i more e ne. omega (arith, e, ne) in
      elim (Bool-cases (right == n)) [
        | inl only ↦
            let eq : right ≡ n = (==_iff right n).0 only in
            rw only (record {
              inside = omega (arith, eq);
              deeper = omega arith;
              child = omega arith;
              least = λ i more lt e.
                  let same : i ≡ left = omega (arith, e, eq) in
                  ap_le (ap (λ (k : ℕ). when (at tes k)) same);
            })
        | inr both ↦
            let apart : right < n = ground (arith, le) in
            elim (Bool-cases (ltb (when (at tes left)) (when (at tes right)))) [
              | inl less ↦
                  rw (both, less)
                    (record {
                      inside = omega (arith, apart);
                      deeper = omega arith;
                      child = omega arith;
                      least = λ i more lt e. elim (Bool-cases (i == left)) [
                        | inl here ↦
                            ap_le (ap (λ (k : ℕ). when (at tes k)) ((==_iff i left).0 here))
                        | inr there ↦
                            let same : i ≡ right = two i more e (λ q. ground arith) in
                            omega (arith, ltb→lt _ _ less, ap (λ (k : ℕ). when (at tes k)) same)
                      ];
                    })
              | inr more_left ↦
                  rw (both, more_left)
                    (record {
                      inside = apart;
                      deeper = omega arith;
                      child = omega arith;
                      least = λ i more lt e. elim (Bool-cases (i == left)) [
                        | inl here ↦ omega (
                          arith,
                          ltb-false→le _ _ more_left,
                          ap (λ (k : ℕ). when (at tes k)) ((==_iff i left).0 here),
                        )
                        | inr there ↦
                            let same : i ≡ right = two i more e (λ q. ground arith) in
                            ap_le (ap (λ (k : ℕ). when (at tes k)) same)
                      ];
                    })
            ]
      ]
    where
      ap_le : {a b : ℕ} → a ≡ b → b ≤ a
      ap_le e = omega (arith, e)

  module _ (t : Ptr) where
    unfoldable pub sink : ℕ → List Ptr → ℕ → List Ptr
    sink zero tes h = tes
    sink (suc rounds) tes h =
        let c = pick tes h in
        let rest = sink rounds (set tes h (at tes c)) c in
        if leb (2 * (h + 1)) n
        then (if ltb (when (at tes c)) (when t) then rest else set tes h t)
        else set tes h t

    -- The order with a hole at `h` that waits for `t`, which its parent is not due after.
    pub record IsSinking (tes : List Ptr) (h : ℕ) : Type 0 where
      pub away :
          (i : ℕ)
          → 0 < i
          → i < n
          → i ≢ h
          → parent i ≢ h
          → when (at tes (parent i)) ≤ when (at tes i)
      pub across :
          (i : ℕ)
          → 0 < i
          → i < n
          → parent i ≡ h
          → 0 < h
          → when (at tes (parent h)) ≤ when (at tes i)
      pub above : 0 < h → h < n → when (at tes (parent h)) ≤ when t

    settled :
        (tes : List Ptr) (h : ℕ)
        → h < length tes
        → IsSinking tes h
        → ((i : ℕ) → 0 < i → i < n → parent i ≡ h → when t ≤ when (at tes i))
        → IsHeap when n (set tes h t)
    settled tes h inside gap below = elim (Bool-cases (ltb h n)) [
      | inl used ↦
          filled when n t tes h inside
            (record { away = gap.away; below = below; across = gap.across })
            (λ pos_h. gap.above pos_h (ltb→lt h n used))
      | inr outside ↦ λ i more lt.
          rw
            (
              at-set_ne when n t tes h i t (λ e. ground arith),
              at-set_ne when n t tes h (parent i) t (λ e. ground arith),
            )
            (gap.away i more lt (λ e. ground arith) (λ e. ground arith))
    ]

    lowered :
        (tes : List Ptr) (h c : ℕ)
        → h < length tes
        → IsPick tes h c
        → when (at tes c) < when t
        → IsSinking tes h
        → IsSinking (set tes h (at tes c)) c
    lowered tes h c inside picked later gap = record {
      away = λ i more lt ne pne. elim (Bool-cases (h == i)) [
        | inl e ↦
            let eq : h ≡ i = (==_iff h i).0 e in
            rw
              (
                ← eq,
                at-set_self when n t tes h (at tes c) inside,
                at-set_ne when n t tes h (parent h) (at tes c) (λ q. omega (arith, q, eq)),
              )
              (gap.across c (omega (arith, picked.deeper)) picked.inside picked.child
                (omega (arith, eq)))
        | inr other ↦ elim (Bool-cases (h == parent i)) [
          | inl e ↦
              let eq : h ≡ parent i = (==_iff h (parent i)).0 e in
              rw
                (
                  ← eq,
                  at-set_self when n t tes h (at tes c) inside,
                  at-set_ne when n t tes h i (at tes c) (ground arith),
                )
                (picked.least i more lt (sym eq))
          | inr apart ↦
              rw
                (
                  at-set_ne when n t tes h i (at tes c) (ground arith),
                  at-set_ne when n t tes h (parent i) (at tes c) (ground arith),
                )
                (gap.away i more lt (ground arith) (ground arith))
        ]
      ];
      across = λ i more lt e c_pos.
          let up : at (set tes h (at tes c)) (parent c) ≡ at tes c =
            ap (at (set tes h (at tes c))) picked.child
            ∙ at-set_self when n t tes h (at tes c) inside in
          let same : at (set tes h (at tes c)) i ≡ at tes i =
            at-set_ne when n t tes h i (at tes c) (λ q. omega (arith, picked.deeper, e, q)) in
          rw (up, same)
            (let edge : when (at tes (parent i)) ≤ when (at tes i) =
                gap.away i more lt (λ q. omega (arith, picked.deeper, e, q))
                  (λ q. omega (arith, picked.deeper, e, q)) in
              rw (← e) edge);
      above = λ c_pos c_lt.
          let up : at (set tes h (at tes c)) (parent c) ≡ at tes c =
            ap (at (set tes h (at tes c))) picked.child
            ∙ at-set_self when n t tes h (at tes c) inside in
          rw up (omega (arith, later));
    }

    -- the ways that a round goes
    pub sink-stop :
        (rounds : ℕ) (tes : List Ptr) (h : ℕ)
        → leb (2 * (h + 1)) n ≡ true
        → ltb (when (at tes (pick tes h))) (when t) ≡ false
        → sink (suc rounds) tes h ≡ set tes h t
    unfolding sink
    sink-stop rounds tes h more fits = rw (more, fits) refl

    pub sink-go :
        (rounds : ℕ) (tes : List Ptr) (h : ℕ)
        → leb (2 * (h + 1)) n ≡ true
        → ltb (when (at tes (pick tes h))) (when t) ≡ true
        → sink (suc rounds) tes h ≡ sink rounds (set tes h (at tes (pick tes h))) (pick tes h)
    unfolding sink
    sink-go rounds tes h more later = rw (more, later) refl

    pub sink-leaf :
        (rounds : ℕ) (tes : List Ptr) (h : ℕ)
        → leb (2 * (h + 1)) n ≡ false
        → sink (suc rounds) tes h ≡ set tes h t
    unfolding sink
    sink-leaf rounds tes h leaf = rw leaf refl

    -- One round: a property of the array that results holds if it does on each of the ways.
    sink-cases :
        (P : List Ptr → Type 0) (rounds : ℕ) (tes : List Ptr) (h : ℕ)
        → (((i : ℕ) → 0 < i → i < n → parent i ≡ h → when t ≤ when (at tes i)) → P (set tes h t))
        → ((c : ℕ)
            → IsPick tes h c
            → when (at tes c) < when t
            → P (sink rounds (set tes h (at tes c)) c))
        → P (sink (suc rounds) tes h)
    sink-cases P rounds tes h stop go = elim (Bool-cases (leb (2 * (h + 1)) n)) [
      | inr leaf ↦ rw (sink-leaf rounds tes h leaf) (
          stop (λ i more lt e.
            absurd (let deep : n < 2 * (h + 1) = ground arith in omega (arith, e, deep))))
      | inl more ↦
          let picked : IsPick tes h (pick tes h) = pick-IsPick tes h (ground arith) in
          elim (Bool-cases (ltb (when (at tes (pick tes h))) (when t))) [
            | inl later ↦
                rw (sink-go rounds tes h more later) (go (pick tes h) picked (ltb→lt _ _ later))
            | inr fits ↦ rw (sink-stop rounds tes h more fits) (
                stop
                  (λ i i_pos lt e. omega (arith, picked.least i i_pos lt e, ltb-false→le _ _ fits)))
          ]
    ]

    pub sink-IsHeap :
        (rounds : ℕ) (tes : List Ptr) (h : ℕ)
        → n < h + rounds
        → h ≤ n
        → h < length tes
        → n ≤ length tes
        → IsSinking tes h
        → IsHeap when n (sink rounds tes h)
    sink-IsHeap zero tes h enough le inside full gap = absurd (omega arith)
    sink-IsHeap (suc rounds) tes h enough le inside full gap =
        sink-cases (λ r. IsHeap when n r) rounds tes h (settled tes h inside gap)
          (λ c picked later.
            let size = length-set tes h (at tes c) in
            sink-IsHeap rounds (set tes h (at tes c)) c (omega (arith, picked.deeper))
              (omega (arith, picked.inside)) (omega (arith, picked.inside, size))
              (omega (arith, size)) (lowered tes h c inside picked later gap))

    pub length-sink :
        (rounds : ℕ) (tes : List Ptr) (h : ℕ) → length (sink rounds tes h) ≡ length tes
    unfolding sink
    length-sink zero tes h = refl
    length-sink (suc rounds) tes h =
        sink-cases (λ r. length r ≡ length tes) rounds tes h (λ below. length-set tes h t)
          (λ c picked later.
            length-sink rounds (set tes h (at tes c)) c ∙ length-set tes h (at tes c))

    -- What holds of the timers outside the hole and of `t` holds of the whole array.
    pub sink-all :
        (P : Ptr → Type 0) (rounds : ℕ) (tes : List Ptr) (h : ℕ)
        → n < h + rounds
        → h ≤ n
        → h < length tes
        → n ≤ length tes
        → P t
        → ((i : ℕ) → i < n → i ≢ h → P (at tes i))
        → (i : ℕ) → i < n
        → P (at (sink rounds tes h) i)
    sink-all P zero tes h enough le inside full new all i lt = absurd (omega arith)
    sink-all P (suc rounds) tes h enough le inside full new all i lt =
        sink-cases (λ r. P (at r i)) rounds tes h
          (λ below. set-all when n t P tes h i t inside new all lt)
          (λ c picked later.
            let size = length-set tes h (at tes c) in
            sink-all P rounds (set tes h (at tes c)) c (omega (arith, picked.deeper))
              (omega (arith, picked.inside)) (omega (arith, picked.inside, size))
              (omega (arith, size)) new
              (λ k k_lt ne.
                set-all when n t P tes h k (at tes c) inside
                  (all c picked.inside (λ e. omega (arith, picked.deeper, e))) all k_lt)
              i lt)

    -- A timer that stands in the array outside the hole still does.
    pub sink-keeps :
        (rounds : ℕ) (tes : List Ptr) (h i : ℕ)
        → n < h + rounds
        → h ≤ n
        → h < length tes
        → n ≤ length tes
        → i < n
        → i ≢ h
        → (j : ℕ) × (j < n) × (at (sink rounds tes h) j ≡ at tes i)
    sink-keeps zero tes h i enough le inside full lt ne = absurd (omega arith)
    sink-keeps (suc rounds) tes h i enough le inside full lt ne =
        sink-cases (λ r. (j : ℕ) × (j < n) × (at r j ≡ at tes i)) rounds tes h
          (λ below. (i, lt, at-set_ne when n t tes h i t (λ e. ne (sym e))))
          (λ c picked later.
            let size = length-set tes h (at tes c) in
            let again : (k : ℕ)
                → k < n
                → k ≢ c
                → (j : ℕ) × (j < n)
                  × (at (sink rounds (set tes h (at tes c)) c) j ≡ at (set tes h (at tes c)) k) =
              λ k k_lt k_ne.
                sink-keeps rounds (set tes h (at tes c)) c k (omega (arith, picked.deeper))
                  (omega (arith, picked.inside)) (omega (arith, picked.inside, size))
                  (omega (arith, size)) k_lt k_ne in
            elim (Bool-cases (i == c)) [
              | inr other ↦
                  let (j, below, found) = again i lt (λ e. ground arith) in
                  (j, below, found ∙ at-set_ne when n t tes h i (at tes c) (λ e. ne (sym e)))
              | inl same ↦
                  let (j, below, found) =
                    again h (omega (arith, picked.deeper, picked.inside))
                      (λ e. omega (arith, picked.deeper, e)) in
                  (
                    j,
                    below,
                    found
                        ∙ at-set_self when n t tes h (at tes c) inside
                        ∙ ap (at tes) (sym ((==_iff i c).0 same)),
                  )
            ])

    -- `t` stands in the array if the hole did.
    pub sink-has :
        (rounds : ℕ) (tes : List Ptr) (h : ℕ)
        → n < h + rounds
        → h < n
        → h < length tes
        → n ≤ length tes
        → (j : ℕ) × (j < n) × (at (sink rounds tes h) j ≡ t)
    sink-has zero tes h enough used inside full = absurd (omega arith)
    sink-has (suc rounds) tes h enough used inside full =
        sink-cases (λ r. (j : ℕ) × (j < n) × (at r j ≡ t)) rounds tes h
          (λ below. (h, used, at-set_self when n t tes h t inside))
          (λ c picked later.
            let size = length-set tes h (at tes c) in
            sink-has rounds (set tes h (at tes c)) c (omega (arith, picked.deeper)) picked.inside
              (omega (arith, picked.inside, size)) (omega (arith, size)))
