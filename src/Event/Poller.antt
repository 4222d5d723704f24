-- ===== src/Event/Poller.antt =====
-- The data that kznet/event.c shares with the pollers of kznet/poller.c, and the operations that a
-- poller offers.
use libakio.Prelude.{ℕ, Bool, Option, List, Run, bit_and, not, ◌==◌, ℤ}

-- `struct ev_event`; the callbacks and the data are addresses
pub record EvEvent : Type 0 where
  pub event : ℕ
  pub user_data : ℕ
  pub on_read : ℕ
  pub on_write : ℕ

-- `struct ev_active`
pub record EvActive : Type 0 where
  pub fd : ℕ
  pub event : ℕ

abbrev pub ev_none : ℕ
ev_none = 0

abbrev pub ev_rdable : ℕ
ev_rdable = 1

abbrev pub ev_wrable : ℕ
ev_wrable = 2

-- `event & mask`, as a test
abbrev pub has : ℕ → ℕ → Bool
has event mask = not (bit_and event mask == 0)

-- What a poller sees of the loop: `maxfd` is `none` where the code has -1.
pub record View : Type 0 where
  pub maxfd : Option ℕ
  pub setsize : ℕ
  pub events : List EvEvent
  pub actives : List EvActive

-- The functions of kznet/poller.c over the poller's own state. `addevent` and `delevent` return an
-- int, and `poll` the number of active events, with the array of them.
pub record PollerOps (Poller : Type 0) : Type 0 where
  pub addevent : Poller → View → ℕ → ℕ → Run (ℤ × Poller)
  pub delevent : Poller → View → ℕ → ℕ → Run (ℤ × Poller)
  pub poll : Poller → View → Option ℕ → Run (ℕ × List EvActive × Poller)
