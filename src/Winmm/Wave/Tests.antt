-- ===== src/Winmm/Wave/Tests.antt =====
-- Two buffers wait and two play: the walk to the last of those that wait, and the reset of those that play.
use uwin_old.Common.{ℕ}
use uwin_old.Common.{◌≡◌, refl}
use uwin_old.Common.{Bool, true, false, none, some, [], ◌∷◌}
use uwin_old.Common.{◌==◌, if◌then◌else◌}
use uwin_old.Winmm.Wave.{Header, Heap, Device, wom_open, head, walk, next_of, clear_queue}

abbrev header : Bool → ℕ → Header
header on next = record {
  flags = record {
    done_ = false;
    prepared = true;
    begin_loop = false;
    end_loop = false;
    in_queue = on;
  };
  loops = 0;
  next = next;
}

abbrev memory : Heap
memory q =
    if q == 1
    then header true 2
    else if q == 2
    then header true 0
    else if q == 5
    then header true 6
    else if q == 6
    then header true 0
    else header false 0

abbrev device : Device
device = record {
  heap = memory;
  first_pending = 1;
  first_enqueued = 5;
  submitted = 1 ∷ 2 ∷ [];
  callbacks = wom_open ∷ [];
}

walk_to_end : walk memory 1 5 head ≡ some (next_of 2)
unfolding walk
walk_to_end = refl

walk_stops : walk memory 1 1 head ≡ none
unfolding walk
walk_stops = refl

reset_clears :
    elim (clear_queue 2 device.heap 5) [ some h ↦ (h 6).flags.in_queue | none ↦ true ] ≡ false
unfolding clear_queue
reset_clears = refl
