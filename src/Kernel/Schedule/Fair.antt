-- ===== src/Kernel/Schedule/Fair.antt =====
-- Fairness of `schedule` of pset4/kernel.cc: round robin from the current process on.
use mathlib.Core.Path.{subst}
use native.Mathlib.Decide.{dec_lt}
use cs61_f18_psets.Base.{
  ℕ, zero, suc, ◌+◌, ◌%◌, ◌≤◌, ◌<◌, ◌≡◌, ◌⊎◌, ◌-◌, refl, sym, Bool, true, false, Bool-cases, inl,
  inr, arith,
}
use cs61_f18_psets.Kernel.Machine.{Kernel, nproc}
use cs61_f18_psets.Kernel.Schedule.{
  user, spinning, run, schedule_loop, schedule, proc_of, is_runnable,
}

abbrev pub runnable : Kernel → ℕ → Bool
runnable k i = is_runnable (proc_of k i).state

-- The process `d + 1` slots after `pid`, round the table.
abbrev pub after : ℕ → ℕ → ℕ
after pid d = (pid + suc d) % nproc

after-zero : (pid : ℕ) → after pid 0 ≡ (pid + 1) % nproc
after-zero pid = omega arith

after-suc : (pid d : ℕ) → after (after pid 0) d ≡ after pid (suc d)
after-suc pid d = omega arith

-- If the process `d + 1` slots on is the first runnable one, the loop runs it, with more than `d`
-- spins.
loop_first :
    (spins pid d : ℕ) (k : Kernel)
    → d < spins
    → runnable k (after pid d) ≡ true
    → ((e : ℕ) → e < d → runnable k (after pid e) ≡ false)
    → schedule_loop spins pid k ≡ user (after pid d) (record k { current = after pid d })
unfolding schedule_loop run
loop_first zero pid d k lt on before = absurd (omega arith)
loop_first (suc spins) pid zero k lt on before = rw (← after-zero pid, on) refl
loop_first (suc spins) pid (suc d) k lt on before =
    rw (sym (after-zero pid), before 0 (omega arith))
      (subst (λ j. schedule_loop spins (after pid 0) k ≡ user j (record k { current = j }))
        (after-suc pid d)
        (loop_first spins (after pid 0) d k (omega arith) (rw (after-suc pid d) on)
          (λ e h. rw (after-suc pid e) (before (suc e) (omega arith)))))

loop_idle :
    (spins pid : ℕ) (k : Kernel)
    → ((i : ℕ) → i < nproc → runnable k i ≡ false)
    → schedule_loop spins pid k ≡ spinning
unfolding schedule_loop
loop_idle zero pid k idle = refl
loop_idle (suc spins) pid k idle =
    rw (idle ((pid + 1) % nproc) (omega arith)) (loop_idle spins ((pid + 1) % nproc) k idle)

up_to :
    (k : Kernel) (pid n : ℕ)
    → ((e : ℕ) → e < n → runnable k (after pid e) ≡ false)
    → runnable k (after pid n) ≡ false
    → (e : ℕ) → Dec (e < n)
    → e < suc n
    → runnable k (after pid e) ≡ false
up_to k pid n before off e (yes lt) h = before e lt
up_to k pid n before off e (no ge) h =
    let same : n ≡ e = omega arith in subst (λ j. runnable k (after pid j) ≡ false) same off

round_table : (pid i : ℕ) → i < nproc → after pid ((i + 15 + 16 - pid % 16) % 16) ≡ i
round_table pid i h = omega arith

-- The first runnable process among the next `n`, if there is one.
first_runnable :
    (k : Kernel) (pid n : ℕ)
    → ((d : ℕ) × (d < n)
        × (runnable k (after pid d) ≡ true)
        × ((e : ℕ) → e < d → runnable k (after pid e) ≡ false))
      ⊎ ((e : ℕ) → e < n → runnable k (after pid e) ≡ false)
first_runnable k pid zero = inr (λ e h. absurd (omega arith))
first_runnable k pid (suc n) = elim (first_runnable k pid n) [
  | inl (d, lt, on, before) ↦ inl (d, omega arith, on, before)
  | inr none_yet ↦ elim (Bool-cases (runnable k (after pid n))) [
    | inl on ↦ inl (n, omega arith, on, none_yet)
    | inr off ↦ inr (λ e h. up_to k pid n none_yet off e (dec_lt e n) h)
  ]
]

-- While any process is runnable, `schedule` reaches a runnable process within one turn round the
-- table; while none is, it spins for ever.
pub schedule_total :
    (spins : ℕ) (k : Kernel)
    → nproc ≤ spins
    → ((j : ℕ) × (j < nproc)
        × (runnable k j ≡ true)
        × (schedule spins k ≡ user j (record k { current = j })))
      ⊎ (((i : ℕ) → i < nproc → runnable k i ≡ false) × ((n : ℕ) → schedule n k ≡ spinning))
unfolding schedule
schedule_total spins k h =
    let pid = (proc_of k k.current).pid in
    elim (first_runnable k pid nproc) [
      | inl (d, lt, on, before) ↦
          inl (after pid d, omega arith, on, loop_first spins pid d k (omega arith) on before)
      | inr all_off ↦
          let idle : (i : ℕ) → i < nproc → runnable k i ≡ false = λ i b.
            subst (λ j. runnable k j ≡ false) (round_table pid i b)
              (all_off ((i + 15 + 16 - pid % 16) % 16) (omega arith)) in
          inr (idle, λ n. loop_idle n pid k idle)
    ]
