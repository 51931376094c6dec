-- ===== src/Pacer.antt =====
-- `RequestPacer` of src/versarr/application/resilient_provider.py. Its lock lets one caller after the
-- other through `wait`; times of the monotonic clock are in microseconds.
pub mod Spacing
mod Tests
use versarr.Base.{List, [], if◌then◌else◌, ltb, max, ℕ, ◌+◌, ◌-◌, ◌∷◌}

pub record Pacer : Type 0 where
  pub min_interval : ℕ
  pub next_slot : ℕ

abbrev pub new_pacer : ℕ → Pacer
new_pacer interval = record { min_interval = interval; next_slot = 0 }

-- `sleep t d` is what the clock says after a sleep of `d` that began at `t`.
module _ (sleep : ℕ → ℕ → ℕ) where
  -- `wait`, from the time that the caller has the lock: when it goes on, and the pacer.
  unfoldable pub wait : ℕ → Pacer → ℕ × Pacer
  wait arrived p =
      let now =
        if ltb arrived p.next_slot then sleep arrived (p.next_slot - arrived) else arrived in
      (now, record p { next_slot = max now p.next_slot + p.min_interval })

  -- When each of a row of callers goes on.
  unfoldable pub wait_all : List ℕ → Pacer → List ℕ
  wait_all [] p = []
  wait_all (arrived ∷ rest) p = let (now, p') = wait arrived p in now ∷ wait_all rest p'
