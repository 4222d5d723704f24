-- ===== src/Hashmap/Put.antt =====
-- hashmap_put of hashmap/hashmap.c around its probing loop, and the resize that it calls.
use libakio.Prelude.{
  ℕ, zero, suc, ◌+◌, ◌<◌, ◌≤◌, ◌≡◌, ◌↔◌, inl, inr, refl, sym, ap, ◌∙◌, arith, Bool, true, false,
  Option, none, some, List, get_or, read, ok, fault, get_or-read, Run-cases, Option-cases,
  if◌then◌else◌, ◌==◌, shl,
}
use libakio.Hashmap.{
  Key, Entry, Hashmap, Malloc, Ends, ends, faults, ◌>>=◌, null_entry, is_null, put_slot, new,
  rehash, resize, is_crowded, put_key, put,
}
use libakio.Hashmap.Trace.{ends_inj, bind-ends, faults_ne_ends}
use libakio.Hashmap.Lookup.{IsTable, Stored, entry, enough, put_slot-Stored}

module _ (same : Key → Key → Bool) (m : Malloc) (fuel : ℕ) where
  put-calm :
      (depth : ℕ) (map after : Hashmap) (key : Key) (value : ℕ)
      → is_crowded same m fuel map ≡ false
      → put_slot same fuel map key value ≡ ends after
      → put same m fuel (suc depth) (some map) (some key) value ≡ ends (1, some after)
  unfolding put put_key
  put-calm depth map after key value calm run = rw (calm, run) refl

  -- With compare deciding equality, on a table whose size is a power of two and that is below the
  -- load limit and has an entry without a key, hashmap_put ends within 13 + size rounds and
  -- returns 1; the table stays well formed, hashmap_get then finds the value under the key, and
  -- every other key that it found a value for keeps that value.
  pub put-Stored :
      ((a b : Key) → (same a b ≡ true) ↔ (a ≡ b))
      → (depth : ℕ) (map : Hashmap) (key : Key) (value slot : ℕ) → IsTable map
      → enough map ≤ fuel
      → is_crowded same m fuel map ≡ false
      → slot < map.size
      → is_null (entry map slot).key ≡ true
      → (stored : Stored same fuel map key value) × (put same m fuel
            (suc depth)
            (some map)
            (some key)
            value
          ≡ ends (1, some stored.after))
  put-Stored same_iff depth map key value slot table deep calm inside null =
      let stored : Stored same fuel map key value =
        put_slot-Stored same same_iff fuel map key value slot table deep inside null in
      (stored, put-calm depth map stored.after key value calm stored.run)

  abbrev counted : Option Key → ℕ
  counted key = if is_null key then 0 else 1

  -- the entries with a key among `rounds` entries from the index `i`
  unfoldable pub keys_from : ℕ → ℕ → List Entry → ℕ
  keys_from zero i es = 0
  keys_from (suc rounds) i es = counted (get_or es i null_entry).key + keys_from rounds (i + 1) es

  key_count :
      (i : ℕ) (es : List Entry) (e : Entry)
      → read es i ≡ ok e
      → counted (get_or es i null_entry).key ≡ counted e.key
  key_count i es e here = ap (λ (e : Entry). counted e.key) (get_or-read es i e null_entry here)

  module _ (put_new : Hashmap → Key → ℕ → Ends Hashmap) where
    rehash-skip :
        (rounds i : ℕ) (es : List Entry) (use_left : ℕ) (newmap : Hashmap) (e : Entry)
        → read es i ≡ ok e
        → e.key ≡ none
        → rehash same m fuel put_new (suc rounds) i es (suc use_left) newmap
          ≡ rehash same m fuel put_new rounds (i + 1) es (suc use_left) newmap
    unfolding rehash
    rehash-skip rounds i es use_left newmap e here empty = rw (rehash, here, empty) refl

    rehash-take :
        (rounds i : ℕ) (es : List Entry) (use_left : ℕ) (newmap : Hashmap) (e : Entry) (key : Key)
        → read es i ≡ ok e
        → e.key ≡ some key
        → rehash same m fuel put_new (suc rounds) i es (suc use_left) newmap ≡ (
            put_new newmap key e.value
            >>= (λ grown. rehash same m fuel put_new rounds (i + 1) es use_left grown))
    unfolding rehash
    rehash-take rounds i es use_left newmap e key here held = rw (rehash, here, held) refl

    rehash-fault :
        (rounds i : ℕ) (es : List Entry) (use_left : ℕ) (newmap : Hashmap)
        → read es i ≡ fault
        → rehash same m fuel put_new (suc rounds) i es (suc use_left) newmap ≡ faults
    unfolding rehash
    rehash-fault rounds i es use_left newmap bad = rw (rehash, bad) refl

    -- The loop counts at most one use for each key.
    rehash-left :
        (rounds i : ℕ) (es : List Entry) (olduse : ℕ) (newmap : Hashmap) (left : ℕ)
        (filled : Hashmap)
        → rehash same m fuel put_new rounds i es olduse newmap ≡ ends (left, filled)
        → olduse ≤ left + keys_from rounds i es
    unfolding rehash keys_from
    rehash-left zero i es olduse newmap left filled h =
        omega (arith, ap (λ (r : ℕ × Hashmap). r.0) (ends_inj h))
    rehash-left (suc rounds) i es zero newmap left filled h = omega arith
    rehash-left (suc rounds) i es (suc use_left) newmap left filled h =
        elim (Run-cases (read es i)) [
          | inl bad ↦
              absurd (faults_ne_ends (sym (rehash-fault rounds i es use_left newmap bad) ∙ h))
          | inr (e, here) ↦ elim (Option-cases (e.key)) [
            | inl empty ↦ omega (
              arith,
              key_count i es e here,
              ap (λ (k : Option Key). counted k) empty,
              rehash-left rounds (i + 1) es (suc use_left) newmap left filled
                  (sym (rehash-skip rounds i es use_left newmap e here empty) ∙ h),
            )
            | inr (key, held) ↦
                let (grown, put, rest) =
                  bind-ends (put_new newmap key e.value)
                    (λ grown. rehash same m fuel put_new rounds (i + 1) es use_left grown)
                    (left, filled)
                    (sym (rehash-take rounds i es use_left newmap e key here held) ∙ h) in
                omega (
                  arith,
                  key_count i es e here,
                  ap (λ (k : Option Key). counted k) held,
                  rehash-left rounds (i + 1) es use_left grown left filled rest,
                )
          ]
        ]

    swap : Hashmap → ℕ × Hashmap → Hashmap
    swap map (left, filled) =
        if left == 0 then record map { entrys = filled.entrys; size = shl 64 map.size 1 } else map

    resize-run :
        (map newmap : Hashmap)
        → new m (shl 64 map.size 1) ≡ some newmap
        → resize same m fuel put_new map ≡ (
            rehash same m fuel put_new map.size 0 map.entrys map.use_count newmap
            >>= (λ r. ends (swap map r)))
    unfolding resize swap
    resize-run map newmap granted = rw (resize, granted) refl

    resize-refused :
        (map : Hashmap)
        → new m (shl 64 map.size 1) ≡ none
        → resize same m fuel put_new map ≡ ends map
    unfolding resize
    resize-refused map refused = rw (resize, refused) refl

    -- If more uses are counted than keys are in the table, as after a deletion, _hashmap_resize
    -- leaves the table as it was whenever it returns.
    pub resize-stuck :
        (map after : Hashmap)
        → keys_from map.size 0 map.entrys < map.use_count
        → resize same m fuel put_new map ≡ ends after
        → after ≡ map
    unfolding swap
    resize-stuck map after fewer h = elim (Option-cases (new m (shl 64 map.size 1))) [
      | inl refused ↦ ends_inj (sym h ∙ resize-refused map refused)
      | inr (newmap, granted) ↦
          let ((left, filled), looped, swapped) =
            bind-ends (rehash same m fuel put_new map.size 0 map.entrys map.use_count newmap)
              (λ r. ends (swap map r)) after (sym (resize-run map newmap granted) ∙ h) in
          let over : (left == 0) ≡ false =
            ground
              (arith, rehash-left map.size 0 map.entrys map.use_count newmap left filled looped) in
          sym (ends_inj swapped) ∙ rw over refl
    ]
