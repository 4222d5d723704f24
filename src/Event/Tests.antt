-- ===== src/Event/Tests.antt =====
-- Runs of the model of kznet/event.c over the select poller, and its theorems at concrete loops.
use libakio.Prelude.{
  ℕ, zero, suc, ◌≡◌, ◌≢◌, refl, arith, bit_and, bit_not, true, false, none, some, replicate, ok,
  read, write, pos, set,
}
use libakio.Prelude.{◌>>=◌}
use libakio.Event
use libakio.Event.Poller.{PollerOps}
use libakio.Event.Select
use libakio.Event.Select.{Fds, SelectCall, fd_setsize}
use libakio.Event.Epoll
use libakio.Event.{Loop, create_event, delete_event, query_event, lower, dispatch, process_events}
use libakio.Event.Bound.{no_event, IsView, event_at}
use libakio.Event.Register.{Registered}
use libakio.Event.Unregister.{delete-Registered}
use libakio.Event.Create
use libakio.Event.Create.{IsIdle, create-IsIdle}
use libakio.Timer
use libakio.Timer.Memory.{Timers}
use libakio.Timer.Expire

program : Unit {0}
unfolding create_event delete_event query_event lower dispatch process_events Select.create
    Select.put_fd Select.addevent Select.delevent Select.collect Select.poll Epoll.addevent
    Epoll.delevent Epoll.report Epoll.poll Timer.create read write
program = tt

-- every descriptor asked for is ready, and the call says that one is
abbrev eager : SelectCall
eager n rfds wfds tv = (pos 1, rfds, wfds)

abbrev poller : PollerOps Fds
poller = Select.ops eager

abbrev no_timers : Timers
no_timers = record {
  heap = record {
    now = 0;
    all = 16;
    tes = replicate 16 0;
    maxsize = 16;
    allocs = 0;
    size = 0;
    head = 0;
    tail = none;
  };
  cells = λ p. none;
}

abbrev idle : Loop Fds
idle = record {
  view = record {
    maxfd = none;
    setsize = 4;
    events = replicate 4 no_event;
    actives = replicate 4 (record { fd = 0; event = 0 });
  };
  poller = record { rfds = replicate fd_setsize false; wfds = replicate fd_setsize false };
  timers = no_timers;
  stop = false;
}

-- the loop after that call
abbrev reading : Loop Fds
reading = record idle {
  view = record (idle.view) {
    maxfd = some 2;
    events =
        set (replicate 4 no_event) 2
          (record { event = 1; user_data = 5; on_read = 7; on_write = 0 });
  };
  poller = record (idle.poller) { rfds = set (replicate fd_setsize false) 2 true };
}

created : create_event poller idle 2 1 7 5 ≡ ok (pos 0, reading)
unfolding create_event Select.addevent Select.put_fd read write
created = refl

reading-IsView : IsView reading.view
reading-IsView = record { full = refl; bound = reading_bound }
  where
    reading_bound : (fd : ℕ) → event_at reading.view.events fd ≢ 0 → Event.above fd (some 2) ≡ false
    reading_bound zero used = absurd (used refl)
    reading_bound (suc zero) used = absurd (used refl)
    reading_bound (suc (suc zero)) used = refl
    reading_bound (suc (suc (suc zero))) used = absurd (used refl)
    reading_bound (suc (suc (suc (suc fd)))) used = absurd (used refl)

drop_two :
    poller.delevent reading.poller reading.view 2 1
    ≡ ok (
      pos 0,
      record (idle.poller) { rfds = set (set (replicate fd_setsize false) 2 true) 2 false },
    )
unfolding Select.delevent Select.put_fd write
drop_two = refl

delete-Registered_example :
    (loop' : Loop Fds) × (delete_event poller reading 2 1 ≡ ok (pos 0, loop'))
    × Registered poller reading 2
        (bit_and (event_at reading.view.events 2) (bit_not 32 1))
        (record (idle.poller) { rfds = set (set (replicate fd_setsize false) 2 true) 2 false })
        loop'
delete-Registered_example =
    delete-Registered poller reading 2 1
      (record (idle.poller) { rfds = set (set (replicate fd_setsize false) 2 true) 2 false })
      reading-IsView (omega arith) (λ e. absurd (omega (arith, e))) drop_two

-- one round: the read callback of descriptor 2 stops the loop
round :
    process_events poller
      (λ cb fd user_data loop. ok (record loop { stop = true }))
      (λ cb user_data loop. ok (0, loop))
      (λ tick. 50)
      1
      reading
    ≡ ok (
        some (
          1,
          record reading {
            stop = true;
            view = record (reading.view) {
              actives = set (reading.view.actives) 0 (record { fd = 2; event = 1 });
            };
          },
        ))
unfolding process_events dispatch Select.poll Select.collect Timer.heap_top Expire.get_shortest_msec
    Expire.process_time_events read write
round = refl

-- arrays as malloc returns them, with anything in them
abbrev dirty : Create.Malloc
dirty = record {
  loop_fits = true;
  heap_fits = true;
  tes_fits = true;
  events = some (replicate 2 (record { event = 3; user_data = 1; on_read = 1; on_write = 1 }));
  actives = some (replicate 2 (record { fd = 9; event = 9 }));
}

cleared_by :
    (Create.create dirty (λ view. Select.create true) (λ p. none) 2 1 >>= λ r.
    ok (elim r as (λ r. ℕ) [ none ↦ 7 | some loop ↦ event_at loop.view.events 1 ]))
    ≡ ok 0
unfolding Create.create Create.set_up Create.clear_events Select.create Timer.create read write
cleared_by = refl

create-IsIdle_example :
    (loop : Loop (Unit {0})) × ((Create.create dirty (λ view. some tt) (λ p. none) 2 1
        ≡ ok (some loop))
      × IsIdle 2 tt loop)
create-IsIdle_example =
    create-IsIdle dirty (λ view. some tt) (λ p. none) 2 1
      (replicate 2 (record { event = 3; user_data = 1; on_read = 1; on_write = 1 }))
      (replicate 2 (record { fd = 9; event = 9 })) tt refl refl refl refl refl refl refl
