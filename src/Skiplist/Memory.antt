-- ===== src/Skiplist/Memory.antt =====
-- The memory of skiplist/skiplist.c: nodes at addresses, and the reads and writes of their pointers.
use libakio.Prelude.{
  ℕ, Option, none, some, List, ◌==◌, if◌then◌else◌, Run, ok, fault, ◌>>=◌, read, write,
}

abbrev pub Ptr : Type 0
Ptr = ℕ

abbrev pub null : Ptr
null = 0

module _ (K : Type 0) where
  -- `skiplist_node`, with all the pointers that its block has room for; the header has no key
  pub record Node : Type 0 where
    pub key : Option K
    pub value : ℕ
    pub forward : List Ptr

  abbrev pub Cells : Type 0
  Cells = Ptr → Option Node

module _ {K : Type 0} where
  unfoldable pub update : Cells K → Ptr → Option (Node K) → Cells K
  update cells p c a = if a == p then c else cells a

  -- `*p`, a fault at NULL and where no node is
  unfoldable pub deref : Cells K → Ptr → Run (Node K)
  deref cells p = if p == null then fault else elim (cells p) [ none ↦ fault | some n ↦ ok n ]

  -- `p->forward[i]`
  unfoldable pub get_forward : Cells K → Ptr → ℕ → Run Ptr
  get_forward cells p i = deref cells p >>= λ n. read n.forward i

  -- `p->forward[i] = q`
  unfoldable pub set_forward : Cells K → Ptr → ℕ → Ptr → Run (Cells K)
  set_forward cells p i q = do
    n ← deref cells p
    forward ← write n.forward i q
    ok (update cells p (some (record n { forward = forward })))
