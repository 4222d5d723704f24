-- ===== src/Event/Select.antt =====
-- The poller over select(2) of kznet/poller.c. A descriptor outside an `fd_set` is a fault.
use libakio.Prelude.{
  ℕ, zero, suc, ◌+◌, ◌*◌, ◌/◌, ◌%◌, ◌^◌, bit_or, Bool, true, false, Option, none, some, List,
  replicate, ◌==◌, if◌then◌else◌, Run, ok, ◌>>=◌, read, write, ℤ, pos, negsuc,
}
use libakio.Event.Poller.{EvEvent, EvActive, ev_none, ev_rdable, ev_wrable, has, View, PollerOps}

-- FD_SETSIZE
abbrev pub fd_setsize : ℕ
fd_setsize = 2 ^ 10

-- `struct poller`: the two copies are made anew by each call of `poll`
pub record Fds : Type 0 where
  pub rfds : List Bool
  pub wfds : List Bool

-- `poller_create`; the `malloc` is a parameter
unfoldable pub create : Bool → Option Fds
create true = some (record { rfds = replicate fd_setsize false; wfds = replicate fd_setsize false })
create false = none

-- `if (event & mask) FD_SET(fd, fds)`, and FD_CLR with `false`
unfoldable pub put_fd : Bool → ℕ → ℕ → ℕ → List Bool → Run (List Bool)
put_fd b event mask fd fds = if has event mask then write fds fd b else ok fds

abbrev pub both : Bool → Fds → ℕ → ℕ → Run (ℤ × Fds)
both b fds fd event = do
  r ← put_fd b event ev_rdable fd fds.rfds
  w ← put_fd b event ev_wrable fd fds.wfds
  ok (pos 0, record { rfds = r; wfds = w })

-- `poller_addevent`
unfoldable pub addevent : Fds → View → ℕ → ℕ → Run (ℤ × Fds)
addevent fds view fd event = both true fds fd event

-- `poller_delevent`
unfoldable pub delevent : Fds → View → ℕ → ℕ → Run (ℤ × Fds)
delevent fds view fd event = both false fds fd event

-- `tv_sec` and `tv_usec` of a timeout in milliseconds; -1 gives -1 % 1000 * 1000 microseconds
abbrev pub timeval : Option ℕ → ℕ × ℤ
timeval none = (0, negsuc 999)
timeval (some timeout) = (timeout / 1000, pos (timeout % 1000 * 1000))

-- select(2): the number of descriptors, the two sets and the timeout, to its result and the sets
abbrev pub SelectCall : Type 0
SelectCall = ℕ → List Bool → List Bool → ℕ × ℤ → ℤ × List Bool × List Bool

-- `event |= mask` if the event is wanted and its descriptor is in the set; the set is read only then
abbrev pub ready : ℕ → ℕ → ℕ → List Bool → Run ℕ
ready wanted mask fd fds =
    if has wanted mask then (read fds fd >>= λ b. ok (if b then mask else 0)) else ok 0

-- The rounds of the loop that are left, from the descriptor `j`.
unfoldable pub collect :
    ℕ → ℕ → List EvEvent → List Bool → List Bool → ℕ → List EvActive → Run (ℕ × List EvActive)
collect zero j events crfds cwfds numevents actives = ok (numevents, actives)
collect (suc rounds) j events crfds cwfds numevents actives = do
  ev ← read events j
  (n, acts) ←
      (if ev.event == ev_none then ok (numevents, actives) else (do
        r ← ready ev.event ev_rdable j crfds
        w ← ready ev.event ev_wrable j cwfds
        acts ← write actives numevents (record { fd = j; event = bit_or r w })
        ok (numevents + 1, acts)))
  collect rounds (j + 1) events crfds cwfds n acts

-- `maxfd + 1`
abbrev pub nfds : Option ℕ → ℕ
nfds none = 0
nfds (some fd) = fd + 1

-- `poller_poll`
unfoldable pub poll : SelectCall → Fds → View → Option ℕ → Run (ℕ × List EvActive × Fds)
poll select fds view timeout =
    let (retval, crfds, cwfds) : ℤ × List Bool × List Bool =
      select (nfds view.maxfd) fds.rfds fds.wfds (timeval timeout) in
    elim retval [
      | pos (suc n) ↦ do
        (numevents, actives) ← collect (nfds view.maxfd) 0 view.events crfds cwfds 0 view.actives
        ok (numevents, actives, fds)
      | pos zero ↦ ok (0, view.actives, fds)
      | negsuc n ↦ ok (0, view.actives, fds)
    ]

abbrev pub ops : SelectCall → PollerOps Fds
ops select = record { addevent = addevent; delevent = delevent; poll = poll select }
