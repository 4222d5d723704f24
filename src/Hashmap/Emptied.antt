-- ===== src/Hashmap/Emptied.antt =====
-- The table that hashmap_delete of hashmap/hashmap.c leaves, and what hashmap_get finds in it.
use libakio.Prelude.{
  ℕ, ◌<◌, ◌≤◌, ◌≡◌, ◌≢◌, ◌↔◌, refl, sym, ap, ◌∙◌, arith, Bool, true, false, ◌&&◌, Option, none,
  some, set, read, read-set_self, read-set_ne, get_or-read, get_or-set_ne, read_unique, ok,
  Bool-cases, Option-cases, inl, inr, ◌==◌, ==_iff,
}
use libakio.Hashmap.{Key, Entry, Hashmap, ends, null_entry, holds, is_null, get_visit, get}
use libakio.Hashmap.Trace.{trace-frame, trace-found, ends_slot}
use libakio.Hashmap.Lookup.{IsTable, entry, enough, stops, get-returns, get-probe, holds-apart}
use libakio.Hashmap.Placed.{IsPlaced, EndsAt}

-- the entry that `hashmap_delete` leaves
abbrev pub removed : Entry → Entry
removed e = record e { key = none; isdel = true }

-- the table with that entry at a slot
unfoldable pub emptied : Hashmap → ℕ → Entry → Hashmap
emptied map i e = record map { entrys = set map.entrys i (removed e) }

module _ (same : Key → Key → Bool) where
  get_visit-removed : (key : Key) (e : Entry) → get_visit same key (removed e) ≡ none
  get_visit-removed key e = refl

  get_visit-held :
      (key : Key) (v : ℕ) (e : Entry)
      → get_visit same key e ≡ some (some v)
      → holds same key e.key ≡ true
  get_visit-held key v e got = ground arith

  -- A look-up of another key passes the entry of a key.
  get_visit-apart :
      (key key' : Key) (v : ℕ) (e : Entry)
      → ((a b : Key) → (same a b ≡ true) ↔ (a ≡ b))
      → same key key' ≡ false
      → get_visit same key e ≡ some (some v)
      → get_visit same key' e ≡ none
  get_visit-apart key key' v e same_iff h got =
      ground (arith, holds-apart same same_iff key key' e.key h)

  module _ (same_iff : (a b : Key) → (same a b ≡ true) ↔ (a ≡ b)) (fuel : ℕ) (map : Hashmap)
      (key : Key) (v i : ℕ) (e : Entry) (here : read map.entrys i ≡ ok e)
      (seen : get_visit same key e ≡ some (some v))
      (walked : EndsAt same fuel map key i (some v)) where
    -- The walk of another key ends where it ended.
    pub frame :
        (key' : Key) (j : ℕ) (r : Option ℕ)
        → same key key' ≡ false
        → EndsAt same fuel map key' j r
        → EndsAt same fuel (emptied map i e) key' j r
    unfolding emptied
    frame key' j r apart walked' =
        let (e1, there, seen') =
          trace-found (get_visit same key') map.entrys map.size fuel _ _ j r walked' in
        trace-frame (get_visit same key') map.entrys map.size i (removed e)
          (get_visit-removed key' e) fuel _ _ j r
          (λ eq.
            let same_entry : e1 ≡ e = read_unique map.entrys j i e1 e eq there here in
            let passed : get_visit same key' e ≡ none =
              get_visit-apart key key' v e same_iff apart seen in
            cc (sym seen' ∙ ap (get_visit same key') same_entry ∙ passed))
          walked'

    -- The entry of another slot was there before, and has another key.
    other_entry :
        IsPlaced same fuel map
        → (j : ℕ) (k : Key) (e1 : Entry) → read (emptied map i e).entrys j ≡ ok e1
        → e1.key ≡ some k
        → (read map.entrys j ≡ ok e1) × (same key k ≡ false)
    unfolding emptied
    other_entry placed j k e1 at_j held = elim (Bool-cases (i == j)) [
      | inl eq ↦
          let emptied : e1 ≡ removed e =
            read_unique (set map.entrys i (removed e)) j i e1 (removed e) (sym ((==_iff i j).0 eq))
              at_j (read-set_self map.entrys i (removed e) e here) in
          absurd (cc (sym held ∙ ap (λ (e : Entry). e.key) emptied))
      | inr ne ↦
          let old : read map.entrys j ≡ ok e1 =
            sym (read-set_ne map.entrys i j (removed e) (ground arith)) ∙ at_j in
          (
            old,
            elim (Bool-cases (same key k)) [
              | inl eq ↦
                  let again : EndsAt same fuel map key j (some e1.value) =
                    placed j key e1 old (held ∙ ap some (sym ((same_iff key k).0 eq))) in
                  absurd (ground (arith, ends_slot _ walked again))
              | inr apart ↦ apart
            ],
          )
    ]

    pub after-IsPlaced : IsPlaced same fuel map → IsPlaced same fuel (emptied map i e)
    after-IsPlaced placed j k e1 at_j held =
        let (old, apart) = other_entry placed j k e1 at_j held in
        frame k j (some e1.value) apart (placed j k e1 old held)

    -- No entry has the key any more.
    after-lacks :
        IsPlaced same fuel map
        → (w : ℕ) → get same fuel (some (emptied map i e)) (some key) ≢ ends (some w)
    after-lacks placed w got =
        let (j, walked') = get-probe same fuel (emptied map i e) key (some w) got in
        let (e1, there, seen') =
          trace-found (get_visit same key) (emptied map i e).entrys (emptied map i e).size fuel _ _
            j (some w) walked' in
        let held : holds same key e1.key ≡ true = get_visit-held key w e1 seen' in
        elim (Option-cases (e1.key)) [
          | inl null ↦ ground arith
          | inr (k, has) ↦
              let eq : k ≡ key =
                (same_iff k key).0 (ap (λ (o : Option Key). holds same key o) (sym has) ∙ held) in
              let apart : same key k ≡ false = (other_entry placed j k e1 there has).1 in
              cc (sym apart ∙ (same_iff key k).1 (sym eq))
        ]

    -- The unused entry is where it was, so that the look-up of the key returns.
    pub after-gone :
        (unused : ℕ)
        → IsTable (emptied map i e)
        → IsPlaced same fuel map
        → enough map ≤ fuel
        → unused < map.size
        → stops same key (entry map unused) ≡ true
        → holds same key (entry map unused).key ≡ false
        → get same fuel (some (emptied map i e)) (some key) ≡ ends none
    unfolding emptied
    after-gone unused table placed deep inside stop lacks =
        let apart : i ≢ unused = λ eq.
          let at_i : holds same key (entry map i).key ≡ true =
            ap (λ (e : Entry). holds same key e.key) (get_or-read map.entrys i e null_entry here)
            ∙ get_visit-held key v e seen in
          cc (sym at_i ∙ ap (λ (n : ℕ). holds same key (entry map n).key) eq ∙ lacks) in
        let (value, got) = get-returns same key (emptied map i e) fuel unused table deep inside (
          ap (λ (e : Entry). stops same key e)
            (get_or-set_ne map.entrys i unused (removed e) null_entry apart)
          ∙ stop) in
        elim (Option-cases value) [
          | inl null ↦ got ∙ ap ends null
          | inr (w, found) ↦ absurd (after-lacks placed w (got ∙ ap ends found))
        ]

  pub unused-stops :
      (key : Key) (e : Entry)
      → (is_null e.key && e.isdel) ≡ false
      → is_null e.key ≡ true
      → (stops same key e ≡ true) × (holds same key e.key ≡ false)
  unused-stops key e clean null = elim (Option-cases (e.key)) [
    | inl empty ↦ (ground arith, ground arith)
    | inr (k, has) ↦ absurd (ground arith)
  ]
