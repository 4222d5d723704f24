-- ===== src/Skiplist/Level.antt =====
-- _random_level of skiplist/skiplist.c, and the array of last nodes that a higher level extends.
use mathlib.Core.Option.{some-injective}
use libakio.Prelude.{
  ℕ, zero, suc, ◌+◌, ◌<◌, ◌≤◌, ◌≡◌, inl, inr, refl, sym, ap, ◌∙◌, arith, true, false, some, List,
  [], ◌∷◌, ◌++◌, length, get_or, set, length-set, get_or-set_self, get_or-set_ne, ltb, Bool-cases,
  if◌then◌else◌, ok, write-in,
}
use libakio.Skiplist.{max_level, is_promoted, random_level, raise}
use libakio.Skiplist.Memory.{Ptr, null}
use libakio.Skiplist.Links.{in_range}

abbrev pub clip : ℕ → ℕ
clip level = if ltb level max_level then level else max_level

level-up :
    (level draw : ℕ) (draws : List ℕ)
    → is_promoted draw ≡ true
    → random_level level (draw ∷ draws) ≡ random_level (level + 1) draws
unfolding random_level
level-up level draw draws up = rw up refl

level-stop :
    (level draw : ℕ) (draws : List ℕ)
    → is_promoted draw ≡ false
    → random_level level (draw ∷ draws) ≡ some (clip level, draws)
unfolding random_level
level-stop level draw draws stop = rw stop refl

pub level_inside :
    (level result : ℕ) (draws left : List ℕ)
    → 0 < level
    → random_level level draws ≡ some (result, left)
    → (0 < result) × (result ≤ max_level)
unfolding random_level
level_inside level result [] left pos e = absurd (cc e)
level_inside level result (draw ∷ draws) left pos e = elim (Bool-cases (is_promoted draw)) [
  | inl up ↦
      level_inside (level + 1) result draws left (omega arith)
        (sym (level-up level draw draws up) ∙ e)
  | inr stop ↦
      let same : clip level ≡ result =
        ap (λ (r : ℕ × List ℕ). r.0)
          (some-injective _ _ (sym (level-stop level draw draws stop) ∙ e)) in
      ground arith
]

abbrev pub AllPromoted : List ℕ → Type 0
AllPromoted [] = Unit {0}
AllPromoted (draw ∷ draws) = (is_promoted draw ≡ true) × AllPromoted draws

climbs :
    (level stop : ℕ) (ups rest : List ℕ)
    → AllPromoted ups
    → is_promoted stop ≡ false
    → random_level level (ups ++ stop ∷ rest) ≡ some (clip (level + length ups), rest)
climbs level stop [] rest promoted stops =
    let same : level ≡ level + length {A = ℕ} [] = omega arith in
    level-stop level stop rest stops ∙ ap (λ (l : ℕ). some (clip l, rest)) same
climbs level stop (draw ∷ ups) rest (up, promoted) stops =
    let same : level + 1 + length ups ≡ level + length (draw ∷ ups) = omega arith in
    level-up level draw (ups ++ stop ∷ rest) up
    ∙ climbs (level + 1) stop ups rest promoted stops
    ∙ ap (λ (l : ℕ). some (clip l, rest)) same

-- If finitely many draws promote the node before one that does not, _random_level uses just those
-- draws and returns one more than the number of promotions, or 32 where that is more; the result
-- lies between 1 and 32.
pub random_level-bounds :
    (stop : ℕ) (ups rest : List ℕ)
    → AllPromoted ups
    → is_promoted stop ≡ false
    → (level : ℕ) × (random_level 1 (ups ++ stop ∷ rest) ≡ some (level, rest))
      × (0 < level)
      × (level ≤ max_level)
      × (level ≡ clip (1 + length ups))
random_level-bounds stop ups rest promoted stops =
    (clip (1 + length ups), climbs 1 stop ups rest promoted stops, ground arith, ground arith, refl)

module _ (header : Ptr) where
  -- The array after `update[j] = header` for a range of levels.
  pub record IsRaised (i rounds : ℕ) (updates updates' : List Ptr) : Type 0 where
    pub size : length updates' ≡ length updates
    pub raised : (j : ℕ) → in_range i rounds j ≡ true → get_or updates' j null ≡ header
    pub others :
        (j : ℕ) → in_range i rounds j ≡ false → get_or updates' j null ≡ get_or updates j null

  pub raise-run :
      (rounds i : ℕ) (updates : List Ptr)
      → i + rounds ≤ length updates
      → (updates' : List Ptr) × ((raise rounds i header updates ≡ ok updates')
          × IsRaised i rounds updates updates')
  unfolding raise
  raise-run zero i updates inside = (
    updates,
    (refl, record { size = refl; raised = λ j e. absurd (ground arith); others = λ j e. refl }),
  )
  raise-run (suc rounds) i updates inside =
      let fits : i < length updates = omega arith in
      let (updates', (run, done)) =
        raise-run rounds (i + 1) (set updates i header)
          (rw (length-set updates i header) (omega arith)) in
      (
        updates',
        (
          rw (write-in updates i header fits) run,
          record {
            size = done.size ∙ length-set updates i header;
            raised = λ j e. elim (Bool-cases (in_range (i + 1) rounds j)) [
              | inl later ↦ done.raised j later
              | inr first ↦
                  let eq : j ≡ i = ground arith in
                  let outside : in_range (i + 1) rounds i ≡ false = ground arith in
                  rw eq (done.others i outside ∙ get_or-set_self updates i header null fits)
            ];
            others = λ j e.
                done.others j (ground arith)
                ∙ get_or-set_ne updates i j header null (λ same. ground arith);
          },
        ),
      )
