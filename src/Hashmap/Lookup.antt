-- ===== src/Hashmap/Lookup.antt =====
-- The operations of hashmap/hashmap.c on tables whose size is a power of two: they end, and a
-- look-up finds what was put.
use libakio.Prelude.{
  ℕ, ◌+◌, ◌^◌, ◌<◌, ◌≤◌, ◌≡◌, ◌≢◌, ◌↔◌, inl, inr, refl, sym, ap, ◌∙◌, arith, Bool, true, false, not,
  ◌&&◌, ◌||◌, Option, none, some, length, length-set, get_or, set, wrap, read_unique, Option-cases,
  Bool-cases, if◌then◌else◌,
}
use libakio.Hashmap.{
  Key, Entry, Hashmap, ends, null_entry, probe, string_hash, holds, is_null, put_visit, get_visit,
  put_slot, get,
}
use libakio.Hashmap.Trace.{trace-change, trace-frame, trace-found, ends_inj, Ends-cases}
use libakio.Hashmap.Bound.{string_hash-lt}
use libakio.Hashmap.Reach.{probe-Finds}

-- the size is a power of two, up to 2^60, and the table has that many entries
pub record IsTable (map : Hashmap) : Type 0 where
  pub power : ℕ
  pub size : map.size ≡ 2 ^ power
  pub small : 2 ^ power ≤ 2 ^ 60
  pub full : length map.entrys ≡ 2 ^ power

-- the fuel that takes a loop through the whole table
abbrev pub enough : Hashmap → ℕ
enough map = 13 + map.size

abbrev pub entry : Hashmap → ℕ → Entry
entry map slot = get_or map.entrys slot null_entry

-- Where some entry makes the loop return, the loop ends.
visit-ends :
    {A : Type 0} (visit : Entry → Option A) (map : Hashmap) (fuel hash slot : ℕ) (a : A)
    → IsTable map
    → hash < 2 ^ 64
    → enough map ≤ fuel
    → slot < map.size
    → visit (entry map slot) ≡ some a
    → (found : ℕ) × (b : A) × (probe visit fuel map.entrys map.size hash hash ≡ ends (found, b))
visit-ends visit map fuel hash slot a table bound deep inside hit =
    let size : map.size ≡ 2 ^ table.power = table.size in
    rw size (
      probe-Finds visit table.power map.entrys table.full table.small 13 fuel hash hash slot a
        (omega arith) (rw (← size) deep) (rw (← size) inside) hit)

module _ (same : Key → Key → Bool) where
  -- An entry where `hashmap_get` returns: never used, or of the key.
  abbrev pub stops : Key → Entry → Bool
  stops key e = (is_null e.key && not e.isdel) || holds same key e.key

  get_visit-stops :
      (key : Key) (e : Entry)
      → stops key e ≡ true
      → (a : Option ℕ) × (get_visit same key e ≡ some a)
  get_visit-stops key e h = elim (Bool-cases (is_null e.key && not e.isdel)) [
    | inl unused ↦ (none, rw unused refl)
    | inr used ↦ (
      some e.value,
      let held : holds same key e.key ≡ true = ground arith in rw (used, held) refl,
    )
  ]

  -- On a table whose size is a power of two and that has an entry which is unused or holds the
  -- key, hashmap_get returns within 13 + size rounds.
  pub get-returns :
      (key : Key) (map : Hashmap) (fuel slot : ℕ)
      → IsTable map
      → enough map ≤ fuel
      → slot < map.size
      → stops key (entry map slot) ≡ true
      → (value : Option ℕ) × (get same fuel (some map) (some key) ≡ ends value)
  unfolding get
  get-returns key map fuel slot table deep inside stop =
      let (a, out) = get_visit-stops key (entry map slot) stop in
      let (found, value, e) =
        visit-ends (get_visit same key) map fuel (string_hash key) slot a table (string_hash-lt key)
          deep inside out in
      (value, rw e refl)

  put_visit-null :
      (key : Key) (value : ℕ) (e : Entry)
      → is_null e.key ≡ true
      → (a : Entry × Bool) × (put_visit same key value e ≡ some a)
  put_visit-null key value e h = elim (Option-cases (e.key)) [
    | inl none_e ↦ ((record { key = some key; value = value; isdel = false }, true), rw none_e refl)
    | inr (k, some_e) ↦ absurd (ground arith)
  ]

  -- The entry that `hashmap_put` leaves is one where `hashmap_get` returns the value.
  pub put_visit-get :
      (key : Key) (value : ℕ) (e e' : Entry) (fresh : Bool)
      → same key key ≡ true
      → put_visit same key value e ≡ some (e', fresh)
      → get_visit same key e' ≡ some (some value)
  put_visit-get key value e e' fresh self out = ground arith

  pub put_visit-passes :
      (key : Key) (value : ℕ) (e : Entry)
      → put_visit same key value e ≡ none
      → get_visit same key e ≡ none
  put_visit-passes key value e out = ground arith

  pub probe-get :
      (fuel : ℕ) (map : Hashmap) (key : Key) (v : Option ℕ) (slot : ℕ)
      → probe (get_visit same key) fuel map.entrys map.size (string_hash key) (string_hash key)
        ≡ ends (slot, v)
      → get same fuel (some map) (some key) ≡ ends v
  unfolding get
  probe-get fuel map key v slot e = rw e refl

  -- A look-up that ended, as the loop that it ran.
  pub get-probe :
      (fuel : ℕ) (map : Hashmap) (key : Key) (v : Option ℕ)
      → get same fuel (some map) (some key) ≡ ends v
      → (slot : ℕ) × (probe
            (get_visit same key)
            fuel
            map.entrys
            map.size
            (string_hash key)
            (string_hash key)
          ≡ ends (slot, v))
  unfolding get
  get-probe fuel map key v h =
      elim (Ends-cases
        (probe (get_visit same key) fuel map.entrys map.size (string_hash key) (string_hash key))) [
          | inl (inl e) ↦ absurd (cc (h, e))
          | inl (inr e) ↦ absurd (cc (h, e))
          | inr ((slot, w), e) ↦ (
            slot,
            e
                ∙ ap (λ (t : Option ℕ). ends (slot, t))
                    (ends_inj (sym (probe-get fuel map key w slot e) ∙ h)),
          )
        ]

  -- What `hashmap_put` without a resize promises for a key.
  pub record Stored (fuel : ℕ) (map : Hashmap) (key : Key) (value : ℕ) : Type 0 where
    pub after : Hashmap
    pub run : put_slot same fuel map key value ≡ ends after
    pub table : IsTable after
    pub found : get same fuel (some after) (some key) ≡ ends (some value)
    pub others :
        (key' : Key) (v : ℕ)
        → same key key' ≡ false
        → get same fuel (some map) (some key') ≡ ends (some v)
        → get same fuel (some after) (some key') ≡ ends (some v)

  -- the map after the write of an entry
  written : Hashmap → ℕ → Entry → Bool → Hashmap
  written map slot e fresh = record map {
    entrys = set map.entrys slot e;
    use_count = if fresh then wrap 64 (map.use_count + 1) else map.use_count;
  }

  module _ (same_iff : (a b : Key) → (same a b ≡ true) ↔ (a ≡ b)) where
    pub same_self : (key : Key) → same key key ≡ true
    same_self key = (same_iff key key).1 refl

    pub holds-apart :
        (key key' : Key) (k : Option Key)
        → same key key' ≡ false
        → holds same key k ≡ true
        → holds same key' k ≡ false
    holds-apart key key' none h held = refl
    holds-apart key key' (some k) h held = let eq : k ≡ key = (same_iff k key).0 held in rw eq h

    -- A look-up of another key does not end with a value where `hashmap_put` stores.
    put_visit-apart :
        (key key' : Key) (value v : ℕ) (e : Entry) (a : Entry × Bool)
        → same key key' ≡ false
        → put_visit same key value e ≡ some a
        → get_visit same key' e ≢ some (some v)
    put_visit-apart key key' value v e a apart put get =
        ground (arith, holds-apart key key' e.key apart)

    pub put_visit-others :
        (key key' : Key) (value : ℕ) (e e' : Entry) (fresh : Bool)
        → same key key' ≡ false
        → put_visit same key value e ≡ some (e', fresh)
        → get_visit same key' e' ≡ none
    put_visit-others key key' value e e' fresh apart put =
        ground (arith, holds-apart key key' e.key apart)

    pub put_slot-Stored :
        (fuel : ℕ) (map : Hashmap) (key : Key) (value slot : ℕ)
        → IsTable map
        → enough map ≤ fuel
        → slot < map.size
        → is_null (entry map slot).key ≡ true
        → Stored fuel map key value
    unfolding put_slot written
    put_slot-Stored fuel map key value slot table deep inside null =
        let hash : ℕ = string_hash key in
        let (a, out) = put_visit-null key value (entry map slot) null in
        let (i, (e', fresh), run) =
          visit-ends (put_visit same key value) map fuel hash slot a table (string_hash-lt key) deep
            inside out in
        let (e, here, put) =
          trace-found (put_visit same key value) map.entrys map.size fuel hash hash i (e', fresh)
            run in
        record {
          after = written map i e' fresh;
          run = rw run refl;
          table = record {
            power = table.power;
            size = table.size;
            small = table.small;
            full = length-set map.entrys i e' ∙ table.full;
          };
          found = probe-get fuel (written map i e' fresh) key (some value) i (
              trace-change (put_visit same key value) (get_visit same key)
                (put_visit-passes key value) map.entrys map.size e' (some value)
                (put_visit-get key value e e' fresh (same_self key) put) fuel hash hash i
                (e', fresh) run);
          others = λ key' v apart got.
              let (j, walked) = get-probe fuel map key' (some v) got in
              let (e1, there, seen) =
                trace-found (get_visit same key') map.entrys map.size fuel _ _ j (some v) walked in
              probe-get fuel (written map i e' fresh) key' (some v) j (
                trace-frame (get_visit same key') map.entrys map.size i e'
                  (put_visit-others key key' value e e' fresh apart put) fuel _ _ j (some v)
                  (λ eq.
                    put_visit-apart key key' value v e (e', fresh) apart put
                      (ap (get_visit same key')
                          (sym (read_unique map.entrys j i e1 e eq there here))
                        ∙ seen))
                  walked);
        }
