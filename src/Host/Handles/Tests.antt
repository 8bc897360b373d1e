-- ===== src/Host/Handles/Tests.antt =====
-- A table with an object and a second handle of it.
use uwin_old.Common.{ℕ}
use uwin_old.Common.{◌≡◌, refl, arith}
use uwin_old.Common.{false, some, [], ◌∷◌}
use uwin_old.Common.{◌==◌, if◌then◌else◌}
use uwin_old.Host.Handles.{
  returns, blocks, Kobj, kdummy, other_kobj, Table, initial, find, erase, assign, report, with_lock,
  use_count, put, get_dummy, delref, put_dummy,
}
use uwin_old.Host.Handles.Calls.{occurrences}
use uwin_old.Host.Handles.Lifetime.{
  Reach, here, next, puts, drops, destroyed_once, put_dummy_blocks,
}

abbrev pub no_kobjs : ℕ → Kobj
no_kobjs p = other_kobj 0

abbrev pub with_event : Table
with_event = record {
  locked = false;
  next_handle = 0x80000001;
  entries = record { handle = 0x80000000; shared = 0 } ∷ [];
  kobjs = λ p. if p == 0 then kdummy 2 0x500 else no_kobjs p;
  next_shared = 1;
  destroyed = [];
}

event_read_back : report 1 (with_event.kobjs 0) ≡ (2, 0x500)
unfolding report
event_read_back = refl

-- A thread, as `uw_thread_create` puts it into the table.
abbrev pub with_thread : Table
with_thread = record with_event { kobjs = λ p. if p == 0 then other_kobj 5 else no_kobjs p }

thread_put : put (initial no_kobjs) (other_kobj 5) ≡ returns (0x80000000, with_thread)
unfolding put initial with_lock assign erase
thread_put = refl

pub thread-Reach : Reach no_kobjs with_thread
unfolding initial
thread-Reach = next here (puts (other_kobj 5) 0x80000000 (omega arith) thread_put)

pub thread_found : find 0x80000000 with_thread.entries ≡ some 0
unfolding find
thread_found = refl

pub thread_once : use_count 0 with_thread.entries ≡ 1
unfolding use_count
thread_once = refl

abbrev closed : Table
closed = record with_thread { entries = []; destroyed = 0 ∷ [] }

thread_dropped : delref with_thread 0x80000000 ≡ returns ((0, 0), closed)
unfolding delref with_lock find report erase use_count
thread_dropped = refl

event_read : get_dummy with_event 0x80000000 2 ≡ returns (0x500, with_event)
unfolding get_dummy with_lock find
event_read = refl

destroyed_once_example : occurrences 0 closed.destroyed ≡ 1
unfolding use_count
destroyed_once_example =
    destroyed_once no_kobjs closed 0 (next thread-Reach (drops 0x80000000 (0, 0) thread_dropped))

put_dummy_blocks_example : put_dummy with_event 0x600 2 ≡ blocks
put_dummy_blocks_example = put_dummy_blocks with_event 0x600 2
