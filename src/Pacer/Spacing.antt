-- ===== src/Pacer/Spacing.antt =====
-- How far apart the callers go on.
use versarr.Base.{List, [], arith, refl, ℕ, ◌+◌, ◌-◌, ◌∷◌, ◌≡◌, ◌≤◌}
use versarr.Pacer.{Pacer, wait, wait_all}

-- The first time is at or after the slot, and each next one the interval later at least.
abbrev pub IsSpaced : ℕ → ℕ → List ℕ → Type 0
IsSpaced interval slot [] = Unit
IsSpaced interval slot (t ∷ ts) = (slot ≤ t) × IsSpaced interval (t + interval) ts

-- A sleep lasts at least as long as it was asked to.
abbrev pub Sleeps : (ℕ → ℕ → ℕ) → Type 0
Sleeps sleep = (t d : ℕ) → t + d ≤ sleep t d

wait-slot :
    (sleep : ℕ → ℕ → ℕ) (arrived : ℕ) (p : Pacer)
    → Sleeps sleep
    → (p.next_slot ≤ (wait sleep arrived p).0)
      × ((wait sleep arrived p).1.next_slot ≡ (wait sleep arrived p).0 + p.min_interval)
      × ((wait sleep arrived p).1.min_interval ≡ p.min_interval)
unfolding wait
wait-slot sleep arrived p h =
    let k = h arrived (p.next_slot - arrived) in (ground arith, ground arith, refl)

-- If a sleep lasts at least as long as asked, callers that wait one after another go on at the
-- pacer's slot or later, each at least the interval after the one before.
pub wait_all-IsSpaced :
    (sleep : ℕ → ℕ → ℕ) (arrivals : List ℕ) (p : Pacer)
    → Sleeps sleep
    → IsSpaced p.min_interval p.next_slot (wait_all sleep arrivals p)
unfolding wait_all
wait_all-IsSpaced sleep [] p h = tt
wait_all-IsSpaced sleep (arrived ∷ rest) p h =
    let s = wait-slot sleep arrived p h in
    (s.0, rw (s.1, s.2) at (wait_all-IsSpaced sleep rest (wait sleep arrived p).1 h))
