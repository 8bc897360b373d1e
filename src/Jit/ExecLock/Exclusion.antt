-- ===== src/Jit/ExecLock/Exclusion.antt =====
-- What the lock of src/uwin/jit_cpu_loop.cpp guarantees, and what breaks it.
use mathlib.Core.Path.{subst}
use uwin_old.Common.{
  ℕ, ◌+◌, ◌≤◌, ◌<◌, ◌≡◌, refl, sym, ◌∙◌, ◌≢◌, ◌⊎◌, ap, inl, inr, arith, Bool, true, false,
  if◌then◌else◌, Bool-cases,
}
use uwin_old.Common.Tally.{
  at, tally, tally-le, tally_unique, tally-pos, tally-zero, tally-at, at_other, at_self,
}
use uwin_old.Jit.ExecLock.{
  Place, looking, executing, in_syscall, gone, Access, spin, take_lock, give_lock, syscall_enter,
  syscall_spin, syscall_exit, leave, Threads, Reached, first, next, Leads, stay, step,
}

abbrev pub is_executing : Place → Bool
is_executing executing = true
is_executing _ = false

abbrev weight : Place → ℕ
weight p = if is_executing p then 1 else 0

abbrev bit : Bool → ℕ
bit b = if b then 1 else 0

-- What an access does to the flag, it does to the thread.
Access-weight :
    (flag flag' : Bool) (p p' : Place)
    → Access flag p flag' p'
    → weight p ≤ bit flag
    → (p' ≡ gone → flag ≡ false)
    → weight p' + bit flag ≡ weight p + bit flag'
Access-weight flag flag' p p' spin le calm = refl
Access-weight flag flag' p p' take_lock le calm = refl
Access-weight true flag' p p' give_lock le calm = refl
Access-weight false flag' p p' give_lock le calm = absurd (omega arith)
Access-weight true flag' p p' syscall_enter le calm = refl
Access-weight false flag' p p' syscall_enter le calm = absurd (omega arith)
Access-weight flag flag' p p' syscall_spin le calm = refl
Access-weight flag flag' p p' syscall_exit le calm = refl
Access-weight flag flag' p p' leave le calm = rw (calm refl) refl

-- The flag is set for one thread that executes, and clear where none does.
Reached-flag :
    (n : ℕ) (t : Threads) → Reached true n t → tally (λ i. weight (t.place i)) n ≡ bit t.flag
Reached-flag n t first = tally-zero (λ i. 0) n (λ i lt. refl)
Reached-flag n t (next i {t = s} {flag = flag} {p = p} r lt access calm) =
    let before = Reached-flag n s r in
    let one = tally-le (λ j. weight (s.place j)) n i lt in
    omega (
      arith,
      Access-weight s.flag flag (s.place i) p access (omega (arith, before, one)) (calm refl),
      tally-at weight s.place i p n lt,
      before,
      one,
    )

weight_one : (p : Place) → is_executing p ≡ true → weight p ≡ 1
weight_one p e = rw e refl

bit_le : (b : Bool) → bit b ≤ 1
bit_le true = omega arith
bit_le false = omega arith

-- As long as no thread leaves while another executes, at most one thread executes translated code.
pub one_executes :
    (n i j : ℕ) (t : Threads)
    → Reached true n t
    → i < n
    → j < n
    → is_executing (t.place i) ≡ true
    → is_executing (t.place j) ≡ true
    → i ≡ j
one_executes n i j t r hi hj runs_i runs_j =
    tally_unique (λ k. weight (t.place k)) n i j (omega (arith, Reached-flag n t r, bit_le t.flag))
      hi hj (omega (arith, weight_one (t.place i) runs_i))
      (omega (arith, weight_one (t.place j) runs_j))

-- A flag that is set is some thread's.
flag_is_held :
    (n : ℕ) (t : Threads)
    → Reached true n t
    → t.flag ≡ true
    → (i : ℕ) × (i < n) × (is_executing (t.place i) ≡ true)
flag_is_held n t r set =
    let one : bit t.flag ≡ 1 = rw set refl in
    let some_thread =
      tally-pos (λ k. weight (t.place k)) n (omega (arith, Reached-flag n t r, one)) in
    (
      some_thread.0,
      some_thread.1,
      elim (Bool-cases (is_executing (t.place some_thread.0))) [
        | inl runs ↦ runs
        | inr idle ↦
            let none_of : weight (t.place some_thread.0) ≡ 0 = rw idle refl in
            absurd (omega (arith, none_of, some_thread.2))
      ],
    )

-- A thread that wants the lock.
abbrev pub Waits : Place → Type 0
Waits p = (p ≡ looking) ⊎ (p ≡ in_syscall)

Access-takes : (p : Place) → Waits p → Access false p true executing
Access-takes p (inl at) = subst (λ q. Access false q true executing) (sym at) take_lock
Access-takes p (inr at) = subst (λ q. Access false q true executing) (sym at) syscall_exit

Waits-idle : (p : Place) → Waits p → is_executing p ≡ false
Waits-idle p (inl at) = rw at refl
Waits-idle p (inr at) = rw at refl

executing_is : (p : Place) → is_executing p ≡ true → p ≡ executing
executing_is looking e = cc
executing_is executing e = refl
executing_is in_syscall e = cc
executing_is gone e = cc

-- The flag is clear: the thread takes it.
takes :
    (n k : ℕ) (t u : Threads)
    → Leads n t u
    → k < n
    → u.flag ≡ false
    → Waits (u.place k)
    → (t' : Threads) × (Leads n t t' × (t'.place k ≡ executing))
takes n k t u leads hk clear waits = (
  record { flag = true; place = at u.place k executing },
  (
    step k leads hk
        (subst (λ f. Access f (u.place k) true executing) (sym clear)
          (Access-takes (u.place k) waits))
        (λ e. cc),
    at_self u.place k executing,
  ),
)

-- No deadlock: from every state that is reached with no thread leaving while another executes, a thread
-- that looks for the lock, in the loop or at the end of a system call, is led to execute by steps
-- in which no thread leaves: the end of the block that executes, if one does, and its own access.
pub no_deadlock :
    (n k : ℕ) (t : Threads)
    → Reached true n t
    → k < n
    → Waits (t.place k)
    → (t' : Threads) × (Leads n t t' × (t'.place k ≡ executing))
no_deadlock n k t r hk waits = elim (Bool-cases t.flag) [
  | inr clear ↦ takes n k t t stay hk clear waits
  | inl set ↦
      let holder = flag_is_held n t r set in
      let i = holder.0 in
      let other : i ≢ k = λ e.
        let bad : true ≡ false =
          sym holder.2 ∙ ap (λ j. is_executing (t.place j)) e ∙ Waits-idle (t.place k) waits in
        cc in
      let released : Threads = record { flag = false; place = at t.place i looking } in
      let leads : Leads n t released =
        step i stay holder.1
          (subst (λ p. Access t.flag p false looking) (sym (executing_is (t.place i) holder.2))
            give_lock)
          (λ e. cc) in
      takes n k t released leads hk refl
        (subst (λ p. Waits p) (sym (at_other t.place i k looking other)) waits)
]

-- Where a thread executes and another, in a system call, leaves, a third that looks for the lock
-- executes beside the first.
pub leave-two_execute :
    (n i j k : ℕ) (t : Threads)
    → Reached false n t
    → j < n
    → k < n
    → j ≢ i
    → k ≢ i
    → j ≢ k
    → t.place i ≡ executing
    → t.place j ≡ in_syscall
    → t.place k ≡ looking
    → (t' : Threads) × (Reached false n t' × ((t'.place i ≡ executing) × (t'.place k ≡ executing)))
leave-two_execute n i j k t r hj hk ji ki jk at_i at_j at_k =
    let left = at t.place j gone in
    let k_looks : left k ≡ looking = at_other t.place j k gone jk ∙ at_k in
    let one : Reached false n (record { flag = false; place = left }) =
      next j r hj (subst (λ p. Access t.flag p false gone) (sym at_j) leave) (λ e. cc) in
    let two : Reached false n (record { flag = true; place = at left k executing }) =
      next k one hk (subst (λ p. Access false p true executing) (sym k_looks) take_lock)
        (λ e. cc) in
    (
      record { flag = true; place = at left k executing },
      (
        two,
        (
          at_other left k i executing ki ∙ at_other t.place j i gone ji ∙ at_i,
          at_self left k executing,
        ),
      ),
    )
