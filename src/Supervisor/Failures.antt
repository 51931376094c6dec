-- ===== src/Supervisor/Failures.antt =====
-- The count of failures, and the sleeps.
use native.Mathlib.Nat.{pow-suc}
use versarr.Base.{
  Bool-cases, List, [], arith, false, inl, inr, leb, min, refl, suc, true, zero, ℕ, ◌*◌, ◌++◌, ◌+◌,
  ◌-◌, ◌<◌, ◌^◌, ◌∙◌, ◌∷◌, ◌≡◌, ◌≤◌,
}
use versarr.Supervisor.{Loop, StepEnd, after_step, delay_after, max_backoff, overflows, run_steps}

-- Failures as steps.
abbrev pub failures_of : ℕ → List StepEnd
failures_of zero = []
failures_of (suc n) = StepEnd.failed ∷ failures_of n

-- A run goes on after a round that left the task alive, and ends with one that did not.
run_steps-alive :
    (backoff : ℕ) (e : StepEnd) (t : List StepEnd) (l : Loop)
    → (after_step backoff e l).1.task_done ≡ false
    → (run_steps backoff (e ∷ t) l).1 ≡ (run_steps backoff t (after_step backoff e l).1).1
unfolding run_steps
run_steps-alive backoff e t l h = rw h refl

run_steps-ended :
    (backoff : ℕ) (e : StepEnd) (t : List StepEnd) (l : Loop)
    → (after_step backoff e l).1.task_done ≡ true
    → (run_steps backoff (e ∷ t) l).1 ≡ (after_step backoff e l).1
unfolding run_steps
run_steps-ended backoff e t l h = rw h refl

run_steps-append :
    (backoff : ℕ) (es ds : List StepEnd) (l : Loop)
    → (run_steps backoff es l).1.task_done ≡ false
    → (run_steps backoff (es ++ ds) l).1 ≡ (run_steps backoff ds (run_steps backoff es l).1).1
unfolding run_steps
run_steps-append backoff [] ds l h = refl
run_steps-append backoff (e ∷ t) ds l h = elim (Bool-cases (after_step backoff e l).1.task_done) [
  | inl ended ↦ absurd (cc (rw (run_steps-ended backoff e t l ended) at h, ended))
  | inr alive ↦
      let l' = (after_step backoff e l).1 in
      rw (run_steps-alive backoff e (t ++ ds) l alive, run_steps-alive backoff e t l alive)
        (run_steps-append backoff t ds l' (rw (run_steps-alive backoff e t l alive) at h))
]

after_failed_step :
    (backoff : ℕ) (l : Loop)
    → l.task_done ≡ false
    → ((after_step backoff StepEnd.failed l).1.task_done ≡ overflows (l.failures + 1))
      × ((after_step backoff StepEnd.failed l).1.failures ≡ l.failures + 1)
unfolding after_step
after_failed_step backoff l h = elim (Bool-cases (overflows (l.failures + 1))) [
  | inl o ↦ rw o (refl, refl)
  | inr o ↦ rw o (h, refl)
]

-- Failures in a row, up to where the task ends.
count_up :
    (backoff n : ℕ) (l : Loop)
    → l.task_done ≡ false
    → l.failures < 1025
    → ((run_steps backoff (failures_of n) l).1.task_done ≡ overflows (l.failures + n))
      × (l.failures + n < 1025 → (run_steps backoff (failures_of n) l).1.failures ≡ l.failures + n)
unfolding run_steps
count_up backoff zero l h low = (ground (arith, h), λ _. omega arith)
count_up backoff (suc n) l h low =
    let (done, counted) = after_failed_step backoff l h in
    let l' = (after_step backoff StepEnd.failed l).1 in
    elim (Bool-cases (overflows (l.failures + 1))) [
      | inl o ↦
          let ended = run_steps-ended backoff StepEnd.failed (failures_of n) l (done ∙ o) in
          rw ended (ground (arith, done), λ k. absurd (ground arith))
      | inr o ↦
          let rest = count_up backoff n l' (done ∙ o) (ground (arith, counted)) in
          let e : l'.failures + n ≡ l.failures + suc n = omega (arith, counted) in
          rw (run_steps-alive backoff StepEnd.failed (failures_of n) l (done ∙ o)) (rw e at rest)
    ]

-- Failures that follow a success of a loop whose task is alive.
after_success :
    (backoff n : ℕ) (es : List StepEnd) (l : Loop)
    → (run_steps backoff es l).1.task_done ≡ false
    → (x : Loop) × (x.task_done ≡ false)
      × (x.failures ≡ 0)
      × ((run_steps backoff (es ++ StepEnd.returned ∷ failures_of n) l).1
          ≡ (run_steps backoff (failures_of n) x).1)
unfolding after_step
after_success backoff n es l alive =
    let l' = (run_steps backoff es l).1 in
    (
      record l' { failures = 0 },
      alive,
      refl,
      run_steps-append backoff es (StepEnd.returned ∷ failures_of n) l alive
          ∙ run_steps-alive backoff StepEnd.returned (failures_of n) l' alive,
    )

-- Where the task is alive, the count of failures after a success and fewer than 1025 failures in a
-- row is the number of these failures.
pub run_steps-failures :
    (backoff n : ℕ) (es : List StepEnd) (l : Loop)
    → (run_steps backoff es l).1.task_done ≡ false
    → n < 1025
    → (run_steps backoff (es ++ StepEnd.returned ∷ failures_of n) l).1.failures ≡ n
run_steps-failures backoff n es l alive few =
    let (x, up, none_yet, e) = after_success backoff n es l alive in
    let counted = (count_up backoff n x up (omega arith)).1 (omega arith) in rw e (omega arith)

-- Where the task is alive, a success and a row of failures after it end the task exactly if the row
-- is at least 1025 long.
pub run_steps-ends :
    (backoff n : ℕ) (es : List StepEnd) (l : Loop)
    → (run_steps backoff es l).1.task_done ≡ false
    → (run_steps backoff (es ++ StepEnd.returned ∷ failures_of n) l).1.task_done ≡ leb 1025 n
run_steps-ends backoff n es l alive =
    let (x, up, none_yet, e) = after_success backoff n es l alive in
    let ended = (count_up backoff n x up (omega arith)).0 in
    rw e (ended ∙ rw none_yet (ground arith))

double-le : (b n : ℕ) → b * 2 ^ (n - 1) ≤ b * 2 ^ (n + 1 - 1)
double-le b zero = omega arith
double-le b (suc n) =
    let e : suc n + 1 - 1 ≡ suc n = omega arith in
    let f : suc n - 1 ≡ n = omega arith in rw (e, f, pow-suc 2 n) (grind arith)

base-le : (b n : ℕ) → b ≤ b * 2 ^ n
base-le b zero = omega arith
base-le b (suc n) = let h = base-le b n in rw (pow-suc 2 n) (grind arith)

-- A sleep after a failure is at most the cap and at least the lesser of the cap and the first delay,
-- and never shorter than the one before.
pub delay_after_bounds :
    (backoff failures : ℕ)
    → (delay_after backoff failures ≤ max_backoff)
      × (min backoff max_backoff ≤ delay_after backoff failures)
      × (delay_after backoff failures ≤ delay_after backoff (failures + 1))
unfolding delay_after
delay_after_bounds backoff failures =
    let h = base-le backoff (failures - 1) in
    let k = double-le backoff failures in (omega arith, omega arith, omega arith)
