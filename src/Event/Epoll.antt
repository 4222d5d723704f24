-- ===== src/Event/Epoll.antt =====
-- The poller over epoll(7) of kznet/poller.c. The kernel's part is a parameter.
use libakio.Prelude.{
  ℕ, zero, suc, ◌+◌, bit_and, bit_or, bit_not, Option, List, ◌==◌, if◌then◌else◌, Run, ok, ◌>>=◌,
  read, write, ℤ, pos, negsuc,
}
use libakio.Event.Poller.{EvActive, ev_none, ev_rdable, ev_wrable, has, View, PollerOps}

-- The operations of epoll_ctl(2).
pub data Op : Type 0 where
  ctl_add : Op
  ctl_mod : Op
  ctl_del : Op

abbrev pub epollin : ℕ
epollin = 0x001

abbrev pub epollout : ℕ
epollout = 0x004

abbrev pub epollerr : ℕ
epollerr = 0x008

abbrev pub epollhup : ℕ
epollhup = 0x010

-- `struct epoll_event`, with the descriptor as its data
pub record EpollEvent : Type 0 where
  pub events : ℕ
  pub fd : ℕ

-- epoll_ctl(2) and epoll_wait(2) over the kernel's state of one descriptor `epfd`; `wait` gets the
-- room in `poller->events` and the timeout, and returns an int and that array.
pub record Kernel (State : Type 0) : Type 0 where
  pub ctl : State → Op → ℕ → EpollEvent → ℤ × State
  pub wait : State → ℕ → Option ℕ → ℤ × List EpollEvent × State

-- The bits of `struct epoll_event` for an event of the loop.
abbrev pub interest : ℕ → ℕ
interest event =
    bit_or (if has event ev_rdable then epollin else 0)
      (if has event ev_wrable then epollout else 0)

-- The event of the loop for the bits of an epoll event.
abbrev pub reported : ℕ → ℕ
reported events =
    let r = if has events epollin then ev_rdable else ev_none in
    let w = if has events epollout then bit_or r ev_wrable else r in
    let e = if has events epollerr then bit_or w ev_wrable else w in
    if has events epollhup then bit_or e ev_wrable else e

module _ {State : Type 0} (kernel : Kernel State) where
  -- `poller_addevent`
  unfoldable pub addevent : State → View → ℕ → ℕ → Run (ℤ × State)
  addevent state view fd event = do
    ev ← read view.events fd
    let op = if ev.event == ev_none then ctl_add else ctl_mod
    ok (kernel.ctl state op fd (record { events = interest (bit_or event ev.event); fd = fd }))

  -- `poller_delevent`
  unfoldable pub delevent : State → View → ℕ → ℕ → Run (ℤ × State)
  delevent state view fd event = do
    ev ← read view.events fd
    let nevent = bit_and ev.event (bit_not 32 event)
    let op = if nevent == ev_none then ctl_del else ctl_mod
    ok (kernel.ctl state op fd (record { events = interest nevent; fd = fd }))

  -- The rounds of the loop over the events that were reported, from the index `j`.
  unfoldable pub report : ℕ → ℕ → List EpollEvent → List EvActive → Run (List EvActive)
  report zero j events actives = ok actives
  report (suc rounds) j events actives = do
    e ← read events j
    acts ← write actives j (record { fd = e.fd; event = reported e.events })
    report rounds (j + 1) events acts

  -- `poller_poll`
  unfoldable pub poll : State → View → Option ℕ → Run (ℕ × List EvActive × State)
  poll state view timeout =
      let (retval, events, state') : ℤ × List EpollEvent × State =
        kernel.wait state view.setsize timeout in
      elim retval [
        | pos numevents ↦ do
          actives ← report numevents 0 events view.actives
          ok (numevents, actives, state')
        | negsuc n ↦ ok (0, view.actives, state')
      ]

  abbrev pub ops : PollerOps State
  ops = record { addevent = addevent; delevent = delevent; poll = poll }
