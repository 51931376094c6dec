-- ===== src/Pacer/Tests.antt =====
-- Tests of the pacer.
use versarr.Base.{[], le_refl, refl, ◌+◌, ◌∷◌, ◌≡◌}
use versarr.Pacer.{new_pacer, wait, wait_all}
use versarr.Pacer.Spacing.{IsSpaced, wait_all-IsSpaced}

three_callers : wait_all (λ t d. t + d) (10 ∷ 10 ∷ 90 ∷ []) (new_pacer 50) ≡ 10 ∷ 60 ∷ 110 ∷ []
unfolding wait_all wait
three_callers = refl

wait_all-IsSpaced_example :
    IsSpaced 50 0 (wait_all (λ t d. t + d) (10 ∷ 10 ∷ 90 ∷ []) (new_pacer 50))
wait_all-IsSpaced_example =
    wait_all-IsSpaced (λ t d. t + d) (10 ∷ 10 ∷ 90 ∷ []) (new_pacer 50) (λ t d. le_refl (t + d))
