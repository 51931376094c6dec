-- ===== src/Supervisor/Health.antt =====
-- When the supervisor is healthy.
use versarr.Base.{
  All, All-imp, Bool, Bool-cases, List, [], any, arith, false, inl, inr, leb, refl, true, ◌<◌, ◌↔◌,
  ◌∷◌, ◌≡◌, ◌⊎◌,
}
use versarr.Supervisor.{Loop, Supervisor, healthy}

none_pass :
    {A : Type 0} (p : A → Bool) (xs : List A) → (any p xs ≡ false) ↔ All (λ a. p a ≡ false) xs
unfolding any
none_pass p [] = (λ _. tt, λ _. refl)
none_pass p (x ∷ xs) = (
  λ h. (ground arith, (none_pass p xs).0 (ground arith)),
  λ h. ground (arith, (none_pass p xs).1 h.1),
)

-- The supervisor is healthy exactly if every loop has failed fewer times in a row than the threshold,
-- and a stop was requested or every task is alive.
pub healthy_iff :
    (s : Supervisor)
    → (healthy s ≡ true) ↔ (
        All (λ l. l.failures < s.failure_threshold) s.loops
        × ((s.stop_requested ≡ true) ⊎ All (λ l. l.task_done ≡ false) s.loops))
unfolding healthy
healthy_iff s =
    let low = none_pass (λ l. leb s.failure_threshold l.failures) s.loops in
    let alive = none_pass (λ (l : Loop). l.task_done) s.loops in
    (
      λ h. (
        All-imp (λ l. leb s.failure_threshold l.failures ≡ false)
            (λ l. l.failures < s.failure_threshold) (λ l e. ground arith) s.loops
            (low.0 (ground arith)),
        elim (Bool-cases s.stop_requested) [ inl e ↦ inl e | inr e ↦ inr (alive.0 (ground arith)) ],
      ),
      λ h.
          let below = low.1 (
            All-imp (λ l. l.failures < s.failure_threshold)
              (λ l. leb s.failure_threshold l.failures ≡ false) (λ l e. ground arith) s.loops
              h.0) in
          rw below (elim h.1 [ inl e ↦ rw e refl | inr e ↦ rw (alive.1 e) (ground arith) ]),
    )
