-- ===== src/Winmm/Wave.antt =====
-- The wave output of src/uwin/target_dlls/WINMM/winmm.c: buffers wait in a linked list until the
-- kernel takes them, and in a second one until they have been played. Headers live in the program's
-- memory, and the lists run through their `lpNext`.
pub mod Locked
mod Tests
use uwin_old.Kernel32.Waits.{wait_for_single_object, mutex, infinite}
use uwin_old.Common.{ℕ, zero, suc, ◌+◌, ◌-◌, ◌*◌, ◌/◌, ◌%◌, ◌^◌, ◌≤◌, ◌<◌, bit_and, bit_or}
use uwin_old.Common.{◌≡◌, refl, sym, ap, ap₂, ◌∙◌, fun_ext, ◌≢◌, ◌↔◌, ◌⊎◌, inl, inr, arith}
use uwin_old.Common.{
  Bool, true, false, not, ◌&&◌, ◌||◌, Option, none, some, List, [], ◌∷◌, ◌++◌, map,
}
use uwin_old.Common.{
  ltb, leb, ◌==◌, if◌then◌else◌, Bool-cases, Option-cases, length, get_elem?, set,
}
use uwin_old.Common.{
  get_or, take, drop, replicate, length-append, length-set, get_elem?-set_self, get_elem?-set_ne,
}
use uwin_old.Common.{
  Outcome, done, panic, ◌>>=◌, ◌>>◌, require, u8, u16, u32, u64, sub32, sub64, signed32,
}
use uwin_old.Common.Int.{ℤ, pos, negsuc, pos_part, neg_part, sub_ℕ, ◌+ℤ◌, ◌-ℤ◌, ◌*ℤ◌, ◌≤ℤ◌, ltb_ℤ}

-- The bits of `dwFlags` that the code reads or writes.
pub record Flags : Type 0 where
  pub done_ : Bool
  pub prepared : Bool
  pub begin_loop : Bool
  pub end_loop : Bool
  pub in_queue : Bool

-- WAVEHDR
pub record Header : Type 0 where
  pub flags : Flags
  pub loops : ℕ
  pub next : ℕ

abbrev pub Heap : Type 0
Heap = ℕ → Header

abbrev pub put : Heap → ℕ → Header → Heap
put h p v q = if p == q then v else h q

-- What the user's callback is told.
pub data Message : Type 0 where
  wom_open : Message
  wom_done : ℕ → Message
  wom_close : Message

-- `uw_wave_out`, the memory it points into, the buffers handed to the kernel by `kwave_add_buffer`,
-- and the calls of the user's callback, oldest first.
pub record Device : Type 0 where
  pub heap : Heap
  pub first_pending : ℕ
  pub first_enqueued : ℕ
  pub submitted : List ℕ
  pub callbacks : List Message

-- `LOCK`, which the file defines with USE_MUTEX as a wait for the mutex without a timeout:
-- `WaitForSingleObject` of KERNEL32.
abbrev pub take_mutex : Outcome (Option ℕ)
take_mutex = wait_for_single_object (λ timeout. false) mutex infinite 0 []

abbrev pub header_size : ℕ
header_size = 32

-- A place that holds a link: the head of a list, or the `lpNext` of a header.
pub data Link : Type 0 where
  head : Link
  next_of : ℕ → Link

abbrev pub deref : Heap → ℕ → Link → ℕ
deref h first head = first
deref h first (next_of p) = (h p).next

-- The walk to the last link, with so many rounds allowed; `none` means that they are used up.
pub walk : Heap → ℕ → ℕ → Link → Option Link
walk h first zero link = if deref h first link == 0 then some link else none
walk h first (suc rounds) link =
    let rest = walk h first rounds (next_of (deref h first link)) in
    if deref h first link == 0 then some link else rest

-- `*link = p`, on the heap and the head of the list.
abbrev pub assign : Heap → ℕ → Link → ℕ → Heap × ℕ
assign h first head p = (h, p)
assign h first (next_of q) p = (put h q (record (h q) { next = p }), first)

-- `waveOutPrepareHeader` and `waveOutUnprepareHeader`
pub prepare_header : Bool → Device → ℕ → ℕ → Outcome Device
prepare_header on d p size = require (size == header_size) >>= λ _. done (record d {
  heap = put d.heap p (record (d.heap p) { flags = record ((d.heap p).flags) { prepared = on } });
})

-- The list with `p` at its end, if the walk takes no more rounds than allowed.
pub append_link : Heap → ℕ → ℕ → ℕ → Outcome (Heap × ℕ)
append_link h first rounds p = elim (walk h first rounds head) [
  | none ↦ panic
  | some link ↦ done (assign h first link p)
]

-- The header as `waveOutWrite` puts it into the list.
abbrev pub queued : Header → Header
queued v = record v { flags = record v.flags { done_ = false; in_queue = true }; next = 0 }

-- `waveOutWrite`: the walk stops the process at its 1001st round.
pub wave_out_write : Device → ℕ → ℕ → Outcome Device
wave_out_write d p size = do
  let v = d.heap p
  require (size == header_size)
  require (not (v.flags.begin_loop || v.flags.end_loop || not (v.loops == 0)))
  taken ← take_mutex
  require v.flags.prepared
  require (not v.flags.in_queue)
  joined ← append_link (put d.heap p (queued v)) d.first_pending 1000 p
  done (record d { heap = joined.0; first_pending = joined.1; submitted = d.submitted ++ (p ∷ []) })

-- KWAVE_DONE: the first buffer has been played.
pub on_done : Device → Outcome Device
on_done d = do
  taken ← take_mutex
  require (not (d.first_enqueued == 0))
  let v = d.heap d.first_enqueued
  let played = record v { flags = record v.flags { in_queue = false; done_ = true } }
  done (record d {
    heap = put d.heap d.first_enqueued played;
    first_enqueued = v.next;
    callbacks = d.callbacks ++ (wom_done d.first_enqueued ∷ []);
  })

-- The loop of KWAVE_RESET, with fuel.
pub clear_queue : ℕ → Heap → ℕ → Option Heap
clear_queue zero h p = if p == 0 then some h else none
clear_queue (suc fuel) h p =
    let v = h p in
    let rest =
      clear_queue fuel (put h p (record v { flags = record v.flags { in_queue = false } }))
        v.next in
    if p == 0 then some h else rest

-- KWAVE_RESET
pub on_reset : ℕ → Device → Outcome Device
on_reset fuel d = do
  taken ← take_mutex
  elim (clear_queue fuel d.heap d.first_enqueued) [
    | none ↦ panic
    | some h ↦ done (record d { heap = h; first_enqueued = 0 })
  ]

-- KWAVE_ENQUEUED: the kernel has taken the first pending buffer.
pub on_enqueued : ℕ → Device → Outcome Device
on_enqueued fuel d = do
  taken ← take_mutex
  require (not (d.first_pending == 0))
  let p = d.first_pending
  joined ← append_link d.heap d.first_enqueued fuel p
  done (record d {
    heap = put joined.0 p (record (joined.0 p) { next = 0 });
    first_pending = (d.heap p).next;
    first_enqueued = joined.1;
  })

-- KWAVE_CLOSE leaves the loop, and the callback is told.
pub on_close : Device → Device
on_close d = record d { callbacks = d.callbacks ++ (wom_close ∷ []) }

pub record Format : Type 0 where
  pub tag : ℕ
  pub channels : ℕ
  pub samples_per_sec : ℕ
  pub avg_bytes_per_sec : ℕ
  pub block_align : ℕ
  pub bits_per_sample : ℕ

-- The tests of `waveOutOpen` on its arguments.
pub format_accepted : ℕ → ℕ → ℕ → Format → Bool
format_accepted open_flags instance_data device_id f =
    (open_flags == 0x30000)
    && (instance_data == 0)
    && (device_id == 0xffffffff)
    && (f.tag == 1)
    && (f.channels == 2)
    && (f.samples_per_sec == 44100)
    && (f.avg_bytes_per_sec == u32 (f.samples_per_sec * f.block_align))
    && (f.block_align * 8 == f.channels * f.bits_per_sample)
    && (f.bits_per_sample == 16)

-- `waveOutOpen`: `garbage` is what the memory from `rpmalloc` holds, which is not cleared;
-- `first_enqueued_buffer` is not set. The thread that it starts calls back at once.
pub wave_out_open : ℕ → ℕ → ℕ → Format → Heap → ℕ → Outcome Device
wave_out_open open_flags instance_data device_id f h garbage = do
  require (format_accepted open_flags instance_data device_id f)
  done (record {
    heap = h;
    first_pending = 0;
    first_enqueued = garbage;
    submitted = [];
    callbacks = wom_open ∷ [];
  })
