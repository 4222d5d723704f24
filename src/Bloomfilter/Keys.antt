-- ===== src/Bloomfilter/Keys.antt =====
-- The filter of bloomfilter/bloomfilter.c against the list of the keys that were added to it.
use libakio.Prelude.{
  ℕ, ◌+◌, ◌/◌, ◌^◌, ◌<◌, ◌≤◌, ◌≡◌, ◌↔◌, refl, sym, ap, ◌∙◌, Bool, true, false, ◌||◌, Option, none,
  some, List, [], ◌∷◌, ◌++◌, arith, length, length-append, ◌==◌, if◌then◌else◌, Run, ok, ◌>>=◌,
  Returns, wrap, le→ltb-false,
}
use libakio.Bitset.{Bitset, Malloc}
use libakio.Bitset.Valid.{bit}
use libakio.Bitset.Valid
use libakio.Bitset.Fill.{IsAll, IsMalloc, filled, filled-IsAll, new-filled}
use libakio.Bloomfilter.Hash.{bloom_hash}
use libakio.Bloomfilter.Probes.{
  probed, add_loop-Turned, add_loop-null, check_loop-null, check_loop_iff,
}
use libakio.Bloomfilter
use libakio.Bloomfilter.{Floats, Filter, Key, clamp_k, delta, add_loop, check_loop}

-- whether a filter of `k` probes into `nbits` bits probes bit `m` for `key`
abbrev pub probes : ℕ → ℕ → Key → ℕ → Bool
probes k nbits key m = probed k nbits (bloom_hash key) (delta (bloom_hash key)) m

unfoldable pub any_probes : ℕ → ℕ → List Key → ℕ → Bool
any_probes k nbits [] m = false
any_probes k nbits (key ∷ keys) m = probes k nbits key m || any_probes k nbits keys m

any_probes-append :
    (k nbits : ℕ) (xs ys : List Key) (key : Key) (m : ℕ)
    → probes k nbits key m ≡ true
    → any_probes k nbits (xs ++ key ∷ ys) m ≡ true
unfolding any_probes
any_probes-append k nbits [] ys key m on = rw on
any_probes-append k nbits (x ∷ xs) ys key m on =
    ground (arith, any_probes-append k nbits xs ys key m on)

module _ {F : Type 0} where
  -- The filter holds a valid bitset of `nbits` bits, of which just those that a key of `keys`
  -- probes are set, and it has counted the keys.
  pub record Models (f : Filter F) (keys : List Key) : Type 0 where
    pub bitset : Bitset
    pub holds : f.set ≡ some bitset
    pub valid : Valid.IsValid bitset
    pub width : bitset.length ≡ f.nbits
    pub some_bits : 0 < f.nbits
    pub counted : f.count ≡ length keys
    pub few : f.capacity + 1 < 2 ^ 64
    pub bits :
        (m : ℕ) → m < f.nbits → bit bitset m ≡ (if any_probes f.k f.nbits keys m then 1 else 0)

  -- with the parameters of `f`
  pub record IsGrown (f g : Filter F) : Type 0 where
    pub k : g.k ≡ f.k
    pub nbits : g.nbits ≡ f.nbits
    pub capacity : g.capacity ≡ f.capacity

  module _ {f : Filter F} {keys : List Key} (model : Models f keys) (key : Key) where
    add_from :
        (r : Bitset)
        → length keys ≤ f.capacity
        → add_loop f.k f.nbits (bloom_hash key) (delta (bloom_hash key)) f.set ≡ ok (some r)
        → Bloomfilter.add (some f) (some key)
          ≡ ok (1, some (record f { set = some r; count = f.count + 1 }))
    unfolding Bloomfilter.add
    add_from r room run =
        let bound : f.count ≤ f.capacity = omega (arith, model.counted) in
        let exact : wrap 64 (f.count + 1) ≡ f.count + 1 = omega (arith, model.few) in
        rw (run, le→ltb-false f.capacity f.count bound, exact)

    -- While the filter holds at most capacity keys, bloomfilter_add returns 1 and the filter then
    -- holds the new key too, with the same parameters.
    pub add-Models :
        length keys ≤ f.capacity
        → (g : Filter F) × (Bloomfilter.add (some f) (some key) ≡ ok (1, some g))
          × Models g (key ∷ keys)
          × IsGrown f g
    unfolding any_probes
    add-Models room =
        let h = bloom_hash key in
        let (r, run, turned) =
          add_loop-Turned f.nbits (delta h) model.some_bits f.k h model.valid model.width in
        (
          record f { set = some r; count = f.count + 1 },
          add_from r room (rw model.holds run),
          record {
            bitset = r;
            holds = refl;
            valid = turned.valid;
            width = turned.length ∙ model.width;
            some_bits = model.some_bits;
            counted = omega (arith, model.counted);
            few = model.few;
            bits =
                λ m lt. ground (arith, turned.bits m (omega (arith, model.width)), model.bits m lt);
          },
          record { k = refl; nbits = refl; capacity = refl },
        )

    -- Past that count it refuses and changes nothing.
    pub add-full : f.capacity < length keys → Bloomfilter.add (some f) (some key) ≡ ok (0, some f)
    unfolding Bloomfilter.add
    add-full full = ground (arith, model.counted)

    -- On a filter that holds a list of keys, bloomfilter_check ends in 0 or 1, and in 1 exactly if
    -- the keys together probe every bit that the asked key probes.
    pub check_iff : Returns (Bloomfilter.check (some f) (some key)) λ t.
        (t < 2)
        × ((t ≡ 1) ↔ (
            (m : ℕ)
            → m < f.nbits
            → probes f.k f.nbits key m ≡ true
            → any_probes f.k f.nbits keys m ≡ true))
    unfolding Bloomfilter.check
    check_iff =
        let h = bloom_hash key in
        let (t, run, (small, same)) =
          check_loop_iff f.nbits (delta h) model.some_bits f.k h model.valid model.width in
        (
          t,
          rw model.holds run,
          (
            small,
            (
              (λ one m lt on. ground (arith, same.0 one m lt on, model.bits m lt)),
              λ all. same.1 (λ m lt on. ground (arith, all m lt on, model.bits m lt)),
            ),
          ),
        )

    -- A key that was added is found.
    pub check-added :
        (xs ys : List Key) → keys ≡ xs ++ key ∷ ys → Bloomfilter.check (some f) (some key) ≡ ok 1
    check-added xs ys e =
        let (t, run, (_, same)) = check_iff in
        let one : t ≡ 1 = same.1 (λ m lt on. rw e (any_probes-append f.k f.nbits xs ys key m on)) in
        run ∙ ap ok one

  -- Adding keys one after the other, the last of the list first; it stops at a refusal.
  unfoldable pub add_all : Filter F → List Key → Run (Option (Filter F))
  add_all f [] = ok (some f)
  add_all f (key ∷ keys) = do
    g ← add_all f keys
    (done, g') ← Bloomfilter.add g (some key)
    ok (if done == 1 then g' else none)

  add_all_step :
      (f g r : Filter F) (key : Key) (keys : List Key)
      → add_all f keys ≡ ok (some g)
      → Bloomfilter.add (some g) (some key) ≡ ok (1, some r)
      → add_all f (key ∷ keys) ≡ ok (some r)
  unfolding add_all
  add_all_step f g r key keys e e' = rw (e, e')

  -- A filter that has no key yet takes any `capacity + 1` keys.
  pub add_all-Models :
      {f : Filter F} (keys : List Key)
      → Models f []
      → length keys ≤ f.capacity + 1
      → (g : Filter F) × (add_all f keys ≡ ok (some g)) × Models g keys × IsGrown f g
  unfolding add_all
  add_all-Models {f} [] model room =
      (f, refl, model, record { k = refl; nbits = refl; capacity = refl })
  add_all-Models {f} (key ∷ keys) model room =
      let (g, run, is, grown) = add_all-Models keys model (omega arith) in
      let (r, added, is', grown') = add-Models is key (omega (arith, grown.capacity)) in
      (
        r,
        add_all_step f g r key keys run added,
        is',
        record {
          k = grown'.k ∙ grown.k;
          nbits = grown'.nbits ∙ grown.nbits;
          capacity = grown'.capacity ∙ grown.capacity;
        },
      )

  -- Of up to capacity + 1 keys that are added to an empty valid filter every addition succeeds and
  -- bloomfilter_check answers 1 for each of the keys afterwards.
  pub no_false_negative :
      {f : Filter F} (xs ys : List Key) (key : Key)
      → Models f []
      → length xs + length ys ≤ f.capacity
      → (g : Filter F) × (add_all f (xs ++ key ∷ ys) ≡ ok (some g))
        × (Bloomfilter.check (some g) (some key) ≡ ok 1)
  no_false_negative xs ys key model room =
      let (g, run, is, _) =
        add_all-Models (xs ++ key ∷ ys) model (omega (arith, length-append xs (key ∷ ys))) in
      (g, run, check-added is key xs ys refl)

  empty-Models :
      (f : Filter F) {s : Bitset} (nbits : ℕ)
      → IsAll nbits 0 s
      → f.set ≡ some s
      → f.nbits ≡ nbits
      → f.count ≡ 0
      → 0 < nbits
      → f.capacity + 1 < 2 ^ 64
      → Models f []
  unfolding any_probes
  empty-Models f {s} nbits all e w c pos few = record {
    bitset = s;
    holds = e;
    valid = all.valid;
    width = all.length ∙ sym w;
    some_bits = omega arith;
    counted = c;
    few = few;
    bits = λ m lt. all.bits m (omega arith);
  }

  -- `bloomfilter_new` for a rate between 0 and 1 makes an empty filter of 1 to 30 probes, if all
  -- its memory is there and it has a bit at all.
  pub new-Models :
      (fl : Floats F) (m : Malloc) (capacity : ℕ) (erate : F) (block : List ℕ)
      → let nbits = fl.bit_count capacity (clamp_k (fl.probe_count erate)) in
        fl.outside_unit erate ≡ false
        → IsMalloc m
        → m.struct_fits ≡ true
        → m.block ((nbits + 7) / 8) ≡ some block
        → 0 < nbits
        → nbits + 7 < 2 ^ 64
        → capacity + 1 < 2 ^ 64
        → (f : Filter F) × (Bloomfilter.new fl true m capacity erate ≡ ok (some f))
          × Models f []
          × (f.capacity ≡ capacity)
          × (1 ≤ f.k)
          × (f.k ≤ 30)
  unfolding Bloomfilter.new
  new-Models fl m capacity erate block inside hm fits b pos small few =
      let k : ℕ = clamp_k (fl.probe_count erate) in
      let nbits : ℕ = fl.bit_count capacity k in
      (
        record {
          erate = erate;
          k = k;
          capacity = capacity;
          nbits = nbits;
          count = 0;
          set = some (filled nbits 0);
        },
        rw (inside, new-filled m nbits block hm small fits b),
        empty-Models _ nbits (filled-IsAll nbits small) refl refl refl pos few,
        refl,
        ground arith,
        ground arith,
      )

  -- On a filter whose bitset could not be allocated, with k and nbits above 0 and a count of at
  -- most the capacity, bloomfilter_add of a key still returns 1, and bloomfilter_check then
  -- answers 0 for that key and for every other.
  pub add-null_set :
      (f : Filter F) (key : Key)
      → f.set ≡ none
      → 0 < f.k
      → 0 < f.nbits
      → f.count ≤ f.capacity
      → (g : Filter F) × (Bloomfilter.add (some f) (some key) ≡ ok (1, some g))
        × ((asked : Key) → Bloomfilter.check (some g) (some asked) ≡ ok 0)
  unfolding Bloomfilter.add Bloomfilter.check
  add-null_set f key e hk pos room =
      let h = bloom_hash key in
      (
        record f { set = none; count = wrap 64 (f.count + 1) },
        rw (e, le→ltb-false f.capacity f.count room, add_loop-null f.nbits (delta h) pos f.k h),
        λ asked. check_loop-null f.nbits (delta (bloom_hash asked)) pos f.k (bloom_hash asked) hk,
      )
