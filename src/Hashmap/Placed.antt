-- ===== src/Hashmap/Placed.antt =====
-- Where hashmap/hashmap.c keeps its keys: hashmap_get ends at the entry that has the key, as long
-- as hashmap_put did not come after a deletion.
use libakio.Prelude.{
  ℕ, ◌+◌, ◌≡◌, ◌≢◌, ◌↔◌, inl, inr, sym, ap, ◌∙◌, refl, arith, Bool, true, false, ◌&&◌, Option, none,
  some, set, get_or, read, ok, get_or-read, get_or-set_ne, read_unique, read-set_self, read-set_ne,
  Option-cases, Bool-cases, ◌==◌, ==_iff, wrap, if◌then◌else◌,
}
use libakio.Hashmap.{
  Key, Entry, Hashmap, ends, ◌>>=◌, null_entry, probe, string_hash, is_null, put_visit, get_visit,
  put_slot,
}
use libakio.Hashmap.Trace.{
  trace-same, trace-frame, trace-change, trace-found, ends_slot, ends_inj, bind-ends,
}
use libakio.Hashmap.Lookup.{entry, put_visit-others, put_visit-passes, put_visit-get, same_self}

module _ (same : Key → Key → Bool) where
  -- no entry was deleted
  abbrev pub IsClean : Hashmap → Type 0
  IsClean map = (slot : ℕ) → (is_null (entry map slot).key && (entry map slot).isdel) ≡ false

  -- the loop of `hashmap_get` for a key returns at a slot
  abbrev pub EndsAt : ℕ → Hashmap → Key → (slot : ℕ) → Option ℕ → Type 0
  EndsAt fuel map k slot r =
      probe (get_visit same k) fuel map.entrys map.size (string_hash k) (string_hash k)
      ≡ ends (slot, r)

  -- every entry with a key is the one where the loop of `hashmap_get` for that key returns
  abbrev pub IsPlaced : ℕ → Hashmap → Type 0
  IsPlaced fuel map =
      (slot : ℕ) (k : Key) (e : Entry)
      → read map.entrys slot ≡ ok e
      → e.key ≡ some k
      → EndsAt fuel map k slot (some e.value)

  pub clean_entry :
      (map : Hashmap)
      → IsClean map
      → (i : ℕ) (e : Entry) → read map.entrys i ≡ ok e
      → (is_null e.key && e.isdel) ≡ false
  clean_entry map clean i e here =
      ap (λ (e : Entry). is_null e.key && e.isdel)
        (sym (get_or-read map.entrys i e null_entry here))
      ∙ clean i

  put_visit-waits :
      (key : Key) (value : ℕ) (e : Entry)
      → (is_null e.key && e.isdel) ≡ false
      → get_visit same key e ≡ none
      → put_visit same key value e ≡ none
  put_visit-waits key value e clean pass = ground arith

  put_visit-found :
      (key : Key) (value v : ℕ) (e : Entry)
      → get_visit same key e ≡ some (some v)
      → put_visit same key value e ≡ some (record e { value = value; isdel = false }, false)
  put_visit-found key value v e stop = ground arith

  put_visit-clean :
      (key : Key) (value : ℕ) (e e' : Entry) (fresh : Bool)
      → put_visit same key value e ≡ some (e', fresh)
      → (is_null e'.key && e'.isdel) ≡ false
  put_visit-clean key value e e' fresh put = ground arith

  -- The entry that `hashmap_put` leaves has the key and the value.
  put_visit-key :
      (key : Key) (value : ℕ) (e e' : Entry) (fresh : Bool)
      → ((a b : Key) → (same a b ≡ true) ↔ (a ≡ b))
      → put_visit same key value e ≡ some (e', fresh)
      → (e'.key ≡ some key) × (e'.value ≡ value)
  put_visit-key key value e e' fresh same_iff put = elim (Option-cases (e.key)) [
    | inl null ↦ (ground arith, ground arith)
    | inr (k, held) ↦ let eq = same_iff k key in (ground (arith, eq.0), ground arith)
  ]

  EndsAt-same :
      (fuel : ℕ) (map : Hashmap) {i j : ℕ} {k k' : Key} {v w : ℕ}
      → i ≡ j
      → k ≡ k'
      → v ≡ w
      → EndsAt fuel map k i (some v)
      → EndsAt fuel map k' j (some w)
  EndsAt-same fuel map at_slot at_key at_value walked = rw (← at_slot, ← at_key, ← at_value) walked

  module _ (same_iff : (a b : Key) → (same a b ≡ true) ↔ (a ≡ b)) (fuel : ℕ) (map : Hashmap)
      (key : Key) (value use_count i : ℕ) (e' : Entry) (fresh : Bool)
      (run : probe
          (put_visit same key value)
          fuel
          map.entrys
          map.size
          (string_hash key)
          (string_hash key)
        ≡ ends (i, (e', fresh))) where
    after_put : Hashmap
    after_put = record map { entrys = set map.entrys i e'; use_count = use_count }

    put-IsClean : IsClean map → IsClean after_put
    unfolding after_put
    put-IsClean clean slot =
        let (e, here, put) =
          trace-found (put_visit same key value) map.entrys map.size fuel _ _ i (e', fresh) run in
        elim (Bool-cases (i == slot)) [
          | inl eq ↦
              let eq' : i ≡ slot = (==_iff i slot).0 eq in
              ap (λ (e : Entry). is_null e.key && e.isdel)
                (ap (λ (n : ℕ). get_or (set map.entrys i e') n null_entry) (sym eq')
                  ∙ get_or-read (set map.entrys i e') i e' null_entry
                      (read-set_self map.entrys i e' e here))
              ∙ put_visit-clean key value e e' fresh put
          | inr ne ↦
              ap (λ (e : Entry). is_null e.key && e.isdel)
                (get_or-set_ne map.entrys i slot e' null_entry (ground arith))
              ∙ clean slot
        ]

    -- An entry that has the key is the one that `hashmap_put` fills.
    put-once :
        IsClean map
        → IsPlaced fuel map
        → (j : ℕ) (e : Entry) → i ≢ j
        → read map.entrys j ≡ ok e
        → e.key ≢ some key
    put-once clean placed j e ne here held =
        let (found, there, seen, walked) =
          trace-same (get_visit same key) (put_visit same key value) (some e.value)
            (λ e. (record e { value = value; isdel = false }, false)) map.entrys map.size
            (λ n e1 at_n. put_visit-waits key value e1 (clean_entry map clean n e1 at_n))
            (put_visit-found key value e.value) fuel _ _ j (placed j key e here held) in
        ne (ends_slot _ run walked)

    put-IsPlaced : IsClean map → IsPlaced fuel map → IsPlaced fuel after_put
    unfolding after_put
    put-IsPlaced clean placed j k e2 at_j held =
        let (e, here, put) =
          trace-found (put_visit same key value) map.entrys map.size fuel _ _ i (e', fresh) run in
        let (has_key, has_value) = put_visit-key key value e e' fresh same_iff put in
        elim (Bool-cases (i == j)) [
          | inl eq ↦
              let eq' : i ≡ j = (==_iff i j).0 eq in
              let found : e2 ≡ e' =
                read_unique (set map.entrys i e') j i e2 e' (sym eq') at_j
                  (read-set_self map.entrys i e' e here) in
              let same_key : key ≡ k =
                cc (sym has_key ∙ ap (λ (e : Entry). e.key) (sym found) ∙ held) in
              let same_value : value ≡ e2.value =
                sym has_value ∙ ap (λ (e : Entry). e.value) (sym found) in
              EndsAt-same fuel after_put eq' same_key same_value (
                trace-change (put_visit same key value) (get_visit same key)
                  (put_visit-passes same key value) map.entrys map.size e' (some value)
                  (put_visit-get same key value e e' fresh (same_self same same_iff key) put) fuel _
                  _ i (e', fresh) run)
          | inr ne ↦
              let old : read map.entrys j ≡ ok e2 =
                sym (read-set_ne map.entrys i j e' (ground arith)) ∙ at_j in
              elim (Bool-cases (same key k)) [
                | inl eq ↦ absurd (
                    put-once clean placed j e2 (ground arith) old
                      (held ∙ ap some (sym ((same_iff key k).0 eq))))
                | inr apart ↦
                    trace-frame (get_visit same k) map.entrys map.size i e'
                      (put_visit-others same same_iff key k value e e' fresh apart put) fuel _ _ j
                      (some e2.value) (ground arith) (placed j k e2 old held)
              ]
        ]

  stored_map : Hashmap → ℕ × (Entry × Bool) → Hashmap
  stored_map map (slot, (e, fresh)) = record map {
    entrys = set map.entrys slot e;
    use_count = if fresh then wrap 64 (map.use_count + 1) else map.use_count;
  }

  put_slot-run :
      (fuel : ℕ) (map : Hashmap) (key : Key) (value : ℕ)
      → put_slot same fuel map key value ≡ (
          probe
            (put_visit same key value)
            fuel
            map.entrys
            map.size
            (string_hash key)
            (string_hash key)
          >>= (λ r. ends (stored_map map r)))
  unfolding put_slot stored_map
  put_slot-run fuel map key value = refl

  -- On a table without deleted entries whose keys are placed, hashmap_put keeps both.
  pub put_slot-IsPlaced :
      ((a b : Key) → (same a b ≡ true) ↔ (a ≡ b))
      → (fuel : ℕ) (map after : Hashmap) (key : Key) (value : ℕ) → IsClean map
      → IsPlaced fuel map
      → put_slot same fuel map key value ≡ ends after
      → IsClean after × IsPlaced fuel after
  unfolding stored_map after_put
  put_slot-IsPlaced same_iff fuel map after key value clean placed h =
      let ((i, (e, fresh)), run, eq) =
        bind-ends _ (λ r. ends (stored_map map r)) after
          (sym (put_slot-run fuel map key value) ∙ h) in
      let n : ℕ = if fresh then wrap 64 (map.use_count + 1) else map.use_count in
      rw (← ends_inj eq) (
        put-IsClean same_iff fuel map key value n i e fresh run clean,
        put-IsPlaced same_iff fuel map key value n i e fresh run clean placed,
      )
