-- ===== src/Skiplist/Views.antt =====
-- What the memory of skiplist/skiplist.c holds at an address, in two parts that change apart: the
-- shape of a node, and its pointers.
use mathlib.Core.Option.{some-injective}
use libakio.Prelude.{
  ℕ, ◌<◌, ◌≡◌, ◌≢◌, inl, inr, refl, ap, ◌∙◌, arith, ◌&&◌, Option, none, some, length, get_or, set,
  length-set, get_or-set_self, get_or-set_ne, ◌==◌, ==_iff, ne→==-false, Bool-cases, if◌then◌else◌,
  ok, read-in, write-in,
}
use libakio.Skiplist.Memory.{Ptr, null, Node, Cells, update, deref, get_forward, set_forward}

module _ (K : Type 0) where
  -- all of a node but the pointers; `room` is how many it has
  pub record Shape : Type 0 where
    pub key : Option K
    pub value : ℕ
    pub room : ℕ

module _ {K : Type 0} where
  abbrev pub shape_of : Option (Node K) → Option (Shape K)
  shape_of none = none
  shape_of (some n) = some (record { key = n.key; value = n.value; room = length n.forward })

  abbrev pub pointer_of : Option (Node K) → ℕ → Ptr
  pointer_of none i = null
  pointer_of (some n) i = get_or n.forward i null

  abbrev pub shape : Cells K → Ptr → Option (Shape K)
  shape cells p = shape_of (cells p)

  abbrev pub fwd : Cells K → Ptr → ℕ → Ptr
  fwd cells p i = pointer_of (cells p) i

  pub node_of :
      (o : Option (Node K)) (s : Shape K)
      → shape_of o ≡ some s
      → (n : Node K) × ((o ≡ some n)
          × ((n.key ≡ s.key) × ((n.value ≡ s.value) × (length n.forward ≡ s.room))))
  node_of none s e = absurd (cc e)
  node_of (some n) s e =
      let inj : (record { key = n.key; value = n.value; room = length n.forward }) ≡ s =
        some-injective _ _ e in
      (
        n,
        (
          refl,
          (
            ap (λ (s : Shape K). s.key) inj,
            (ap (λ (s : Shape K). s.value) inj, ap (λ (s : Shape K). s.room) inj),
          ),
        ),
      )

  pub deref-node :
      (cells : Cells K) (p : Ptr) (n : Node K) → p ≢ null → cells p ≡ some n → deref cells p ≡ ok n
  unfolding deref
  deref-node cells p n ne here = rw (ne→==-false p null ne, here) refl

  -- a node's address, with what stands there
  pub record IsAt (cells : Cells K) (p : Ptr) (s : Shape K) : Type 0 where
    pub valid : p ≢ null
    pub here : shape cells p ≡ some s

  pub deref-run :
      (cells : Cells K) (p : Ptr) (s : Shape K)
      → IsAt cells p s
      → (n : Node K) × ((deref cells p ≡ ok n) × ((n.key ≡ s.key) × (n.value ≡ s.value)))
  deref-run cells p s at =
      let (n, (here, (key, (value, room)))) = node_of (cells p) s at.here in
      (n, (deref-node cells p n at.valid here, (key, value)))

  pub get_forward-run :
      (cells : Cells K) (p : Ptr) (i : ℕ) (s : Shape K)
      → IsAt cells p s
      → i < s.room
      → get_forward cells p i ≡ ok (fwd cells p i)
  unfolding get_forward
  get_forward-run cells p i s at inside =
      let (n, (here, (key, (value, room)))) = node_of (cells p) s at.here in
      rw (deref-node cells p n at.valid here, here) (read-in n.forward i null (rw room inside))

  -- What a write of a pointer leaves.
  pub record IsWrite (cells : Cells K) (p : Ptr) (i : ℕ) (q : Ptr) (cells' : Cells K) : Type 0 where
    pub shapes : (a : Ptr) → shape cells' a ≡ shape cells a
    pub pointers :
        (a : Ptr) (j : ℕ) → fwd cells' a j ≡ (if (a == p) && (j == i) then q else fwd cells a j)

  write_shape :
      (cells : Cells K) (p : Ptr) (i : ℕ) (q : Ptr) (n : Node K) (a : Ptr)
      → cells p ≡ some n
      → shape (update cells p (some (record n { forward = set n.forward i q }))) a ≡ shape cells a
  unfolding update
  write_shape cells p i q n a here = elim (Bool-cases (a == p)) [
    | inl e ↦ let eq : a ≡ p = (==_iff a p).0 e in rw (e, eq, here, length-set n.forward i q) refl
    | inr ne ↦ rw ne refl
  ]

  write_pointer :
      (cells : Cells K) (p : Ptr) (i : ℕ) (q : Ptr) (n : Node K) (a : Ptr) (j : ℕ)
      → cells p ≡ some n
      → i < length n.forward
      → fwd (update cells p (some (record n { forward = set n.forward i q }))) a j
        ≡ (if (a == p) && (j == i) then q else fwd cells a j)
  unfolding update
  write_pointer cells p i q n a j here inside = elim (Bool-cases (a == p)) [
    | inr ne ↦ rw ne refl
    | inl e ↦
        let eq : a ≡ p = (==_iff a p).0 e in
        elim (Bool-cases (j == i)) [
          | inl same ↦
              rw (e, same, (==_iff j i).0 same, get_or-set_self n.forward i q null inside) refl
          | inr other ↦
              rw (e, other, get_or-set_ne n.forward i j q null (ground arith), eq, here) refl
        ]
  ]

  pub set_forward-run :
      (cells : Cells K) (p : Ptr) (i : ℕ) (q : Ptr) (s : Shape K)
      → IsAt cells p s
      → i < s.room
      → (cells' : Cells K) × ((set_forward cells p i q ≡ ok cells') × IsWrite cells p i q cells')
  unfolding set_forward
  set_forward-run cells p i q s at inside =
      let (n, (here, (key, (value, room)))) = node_of (cells p) s at.here in
      let fits : i < length n.forward = rw room inside in
      (
        update cells p (some (record n { forward = set n.forward i q })),
        (
          rw (deref-node cells p n at.valid here, write-in n.forward i q fits) refl,
          record {
            shapes = λ a. write_shape cells p i q n a here;
            pointers = λ a j. write_pointer cells p i q n a j here fits;
          },
        ),
      )

  pub IsAt-kept :
      (cells cells' : Cells K) (p : Ptr) (s : Shape K)
      → shape cells' p ≡ shape cells p
      → IsAt cells p s
      → IsAt cells' p s
  IsAt-kept cells cells' p s same at = record { valid = at.valid; here = same ∙ at.here }
