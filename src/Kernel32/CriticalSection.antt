-- ===== src/Kernel32/CriticalSection.antt =====
-- Critical sections of src/uwin/target_dlls/KERNEL32/kernel32.c, as interleavings of threads, one
-- access to shared memory at a time.
pub mod Invariant
pub mod Safety
mod Tests
use uwin_old.Common.{ℕ, zero, suc, ◌+◌, ◌-◌, ◌*◌, ◌/◌, ◌%◌, ◌^◌, ◌≤◌, ◌<◌, bit_and, bit_or}
use uwin_old.Common.{◌≡◌, refl, sym, ap, ap₂, ◌∙◌, fun_ext, ◌≢◌, ◌↔◌, ◌⊎◌, inl, inr, arith}
use uwin_old.Common.{
  Bool, true, false, not, ◌&&◌, ◌||◌, Option, none, some, List, [], ◌∷◌, ◌++◌, map,
}
use uwin_old.Common.{
  ltb, leb, ◌==◌, if◌then◌else◌, Bool-cases, Option-cases, length, get_elem?, set,
}
use uwin_old.Common.{
  get_or, take, drop, replicate, length-append, length-set, get_elem?-set_self, get_elem?-set_ne,
}
use uwin_old.Common.{
  Outcome, done, panic, ◌>>=◌, ◌>>◌, require, u8, u16, u32, u64, sub32, sub64, signed32,
}
use uwin_old.Common.Int.{ℤ, pos, negsuc, pos_part, neg_part, sub_ℕ, ◌+ℤ◌, ◌-ℤ◌, ◌*ℤ◌, ◌≤ℤ◌, ltb_ℤ}
use uwin_old.Common.Tally.{at, tally}

-- The CRITICAL_SECTION and its semaphore. `lock_count` is a LONG, the bit pattern of which is kept.
pub record Section : Type 0 where
  pub lock_count : ℕ
  pub recursion_count : ℕ
  pub owning_thread : ℕ
  pub semaphore : ℕ  -- the count of the kernel's semaphore

-- `InitializeCriticalSection`
pub initialize_critical_section : Section
initialize_critical_section = record {
  lock_count = 2 ^ 32 - 1;
  recursion_count = 0;
  owning_thread = 0;
  semaphore = 0;
}

-- `InterlockedIncrement` and `InterlockedDecrement`: the new value is stored and returned.
abbrev pub increment : ℕ → ℕ
increment w = u32 (w + 1)

abbrev pub decrement : ℕ → ℕ
decrement w = sub32 w 1

-- Where a thread stands. `d` counts the calls of `EnterCriticalSection` that have returned and are
-- not yet undone; it is the thread's own nesting, not a variable of the code.
pub data Pc : Type 0 where
  outside : Pc
  contended : (d : ℕ) → Pc  -- behind an increment that did not give 0
  waiting : Pc  -- in `ksem_wait`
  acquired : Pc  -- before `OwningThread = Thread`
  owning : Pc  -- before `RecursionCount = 1`
  inside : (d : ℕ) → Pc
  unnesting : (d : ℕ) → Pc  -- before the decrement of a nested leave
  disowning : Pc  -- before `OwningThread = 0`
  releasing : Pc  -- before the decrement of the last leave
  posting : Pc  -- before `ksem_post`

-- One access to shared memory by the thread with the handle `me`.
pub data Move (me : ℕ) (s : Section) : Pc → Section → Pc → Type 0 where
  enter_free :
      increment s.lock_count ≡ 0
      → Move me s outside (record s { lock_count = increment s.lock_count }) acquired
  enter_busy :
      increment s.lock_count ≢ 0
      → Move me s outside (record s { lock_count = increment s.lock_count }) (contended 0)
  nest_free :
      {d : ℕ}
      → increment s.lock_count ≡ 0
      → Move me s (inside d) (record s { lock_count = increment s.lock_count }) acquired
  nest_busy :
      {d : ℕ}
      → increment s.lock_count ≢ 0
      → Move me s (inside d) (record s { lock_count = increment s.lock_count }) (contended d)
  -- The read of the owner and its increment of the count are one step: only the owner writes them then.
  reenter :
      {d : ℕ}
      → me ≡ s.owning_thread
      → Move me s
          (contended d)
          (record s { recursion_count = u32 (s.recursion_count + 1) })
          (inside (suc d))
  queue : {d : ℕ} → me ≢ s.owning_thread → Move me s (contended d) s waiting
  wake : 0 < s.semaphore → Move me s waiting (record s { semaphore = s.semaphore - 1 }) acquired
  own : Move me s acquired (record s { owning_thread = me }) owning
  count_one : Move me s owning (record s { recursion_count = 1 }) (inside 1)
  leave_nested :
      {d : ℕ}
      → sub32 s.recursion_count 1 ≢ 0
      → Move me s
          (inside d)
          (record s { recursion_count = sub32 s.recursion_count 1 })
          (unnesting d)
  leave_last :
      {d : ℕ}
      → sub32 s.recursion_count 1 ≡ 0
      → Move me s (inside d) (record s { recursion_count = sub32 s.recursion_count 1 }) disowning
  unnest :
      {d : ℕ}
      → Move me s (unnesting d) (record s { lock_count = decrement s.lock_count }) (inside (d - 1))
  disown : Move me s disowning (record s { owning_thread = 0 }) releasing
  release_alone :
      decrement s.lock_count ≡ 2 ^ 32 - 1
      → Move me s releasing (record s { lock_count = decrement s.lock_count }) outside
  release_wanted :
      decrement s.lock_count ≢ 2 ^ 32 - 1
      → Move me s releasing (record s { lock_count = decrement s.lock_count }) posting
  post : Move me s posting (record s { semaphore = s.semaphore + 1 }) outside

-- The increments of `lock_count` that a thread has made and not undone.
abbrev pub entries : Pc → ℕ
entries outside = 0
entries (contended d) = suc d
entries waiting = 1
entries acquired = 1
entries owning = 1
entries (inside d) = d
entries (unnesting d) = d
entries disowning = 1
entries releasing = 1
entries posting = 0

-- `GetCurrentThread` gives each thread a handle of its own, which is not zero
-- (src/uwin/thread.cpp, src/uwin/handletable.cpp).
pub record Handles (handle : ℕ → ℕ) : Type 0 where
  pub nonzero : (i : ℕ) → handle i ≢ 0
  pub distinct : (i j : ℕ) → handle i ≡ handle j → i ≡ j

pub record System : Type 0 where
  pub section : Section
  pub pc : ℕ → Pc

abbrev pub total : ℕ → (ℕ → Pc) → ℕ
total n pc = tally (λ i. entries (pc i)) n

-- A step of thread `i`. The program keeps fewer than 2 ^ 31 entries outstanding, so that no count
-- of 32 bits comes round.
pub data Step (handle : ℕ → ℕ) (n : ℕ) (s : System) : System → Type 0 where
  pick :
      (i : ℕ) {c : Section} {p : Pc}
      → i < n
      → Move (handle i) s.section (s.pc i) c p
      → total n (at s.pc i p) < 2 ^ 31
      → Step handle n s (record { section = c; pc = at s.pc i p })

abbrev pub start : System
start = record { section = initialize_critical_section; pc = λ _. outside }

pub data Reach (handle : ℕ → ℕ) (n : ℕ) : System → Type 0 where
  begin : Reach handle n start
  later : {s t : System} → Reach handle n s → Step handle n s t → Reach handle n t
