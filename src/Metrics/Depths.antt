-- ===== src/Metrics/Depths.antt =====
-- What the gauge of a state and a priority shows.
use text.Mathlib.TextEquality.{eq_iff}
use versarr.Base.{
  All, Bool, Bool-cases, List, Option, String, [], arith, beq_self, beq→eq, count, false, first,
  first-All, if◌then◌else◌, inl, inr, ltb, nat_eq, none, path_eq, refl, some, string_eq, suc, true,
  ℕ, ◌&&◌, ◌+◌, ◌<◌, ◌==◌, ◌∙◌, ◌∷◌, ◌≡◌,
}
use versarr.Domain.{priority_text, state_text}
use versarr.Metrics.{
  Gauges, QueueDepth, count_group, count_groups, get_queue_depths, is_depth_of, metrics_step,
  set_depth, set_depths,
}
use versarr.Schema.{Database, JobRow}

abbrev depth_in : Option QueueDepth → ℕ
depth_in none = 0
depth_in (some q) = q.depth

-- No two entries are of one group.
abbrev Distinct : List QueueDepth → Type 0
Distinct [] = Unit
Distinct (q ∷ t) = (first (is_depth_of q.state q.priority) t ≡ none) × Distinct t

-- Every entry counts something.
abbrev Positive : QueueDepth → Type 0
Positive q = 0 < q.depth

abbrev pub is_group : String → String → JobRow → Bool
is_group state priority r = state_text r.state == state && priority_text r.priority == priority

same_group :
    (state priority : String) (q : QueueDepth)
    → is_depth_of state priority q ≡ true
    → (q.state ≡ state) × (q.priority ≡ priority)
same_group state priority q h = (beq→eq _ _ (ground arith), beq→eq _ _ (ground arith))

count_group-here :
    (state priority : String) (t : List QueueDepth)
    → depth_in (first (is_depth_of state priority) (count_group state priority t))
      ≡ suc (depth_in (first (is_depth_of state priority) t))
unfolding first count_group
count_group-here state priority [] = rw (beq_self state, beq_self priority) refl
count_group-here state priority (q ∷ t) = elim (Bool-cases (is_depth_of state priority q)) [
  | inl m ↦ rw m (rw m refl)
  | inr m ↦ rw m (rw m (count_group-here state priority t))
]

count_group-elsewhere :
    (state priority state' priority' : String) (t : List QueueDepth)
    → (state == state' && priority == priority') ≡ false
    → first (is_depth_of state' priority') (count_group state priority t)
      ≡ first (is_depth_of state' priority') t
unfolding first count_group
count_group-elsewhere state priority state' priority' [] h = rw h refl
count_group-elsewhere state priority state' priority' (q ∷ t) h =
    elim (Bool-cases (is_depth_of state priority q)) [
      | inl m ↦
          let (a, b) = same_group state priority q m in
          let n : is_depth_of state' priority' q ≡ false = rw (a, b) h in rw (m, n) refl
      | inr m ↦ rw m (ground (arith, count_group-elsewhere state priority state' priority' t h))
    ]

count_group-absent :
    (state priority state' priority' : String) (t : List QueueDepth)
    → (state == state' && priority == priority') ≡ false
    → first (is_depth_of state' priority') t ≡ none
    → first (is_depth_of state' priority') (count_group state priority t) ≡ none
count_group-absent state priority state' priority' t h n =
    count_group-elsewhere state priority state' priority' t h ∙ n

other_group :
    (state priority : String) (q : QueueDepth)
    → is_depth_of state priority q ≡ false
    → (state == q.state && priority == q.priority) ≡ false
other_group state priority q h = ground (
  arith,
  eq_iff state q.state,
  eq_iff priority q.priority,
  eq_iff q.state state,
  eq_iff q.priority priority,
)

count_group-Distinct :
    (state priority : String) (t : List QueueDepth)
    → Distinct t
    → Distinct (count_group state priority t)
unfolding count_group first
count_group-Distinct state priority [] u = (refl, tt)
count_group-Distinct state priority (q ∷ t) u = elim (Bool-cases (is_depth_of state priority q)) [
  | inl m ↦ rw m u
  | inr m ↦ rw m (
    count_group-absent state priority q.state q.priority t (other_group state priority q m) u.0,
    count_group-Distinct state priority t u.1,
  )
]

count_groups-Distinct :
    (jobs : List JobRow) (t : List QueueDepth) → Distinct t → Distinct (count_groups jobs t)
unfolding count_groups
count_groups-Distinct [] t u = u
count_groups-Distinct (r ∷ jobs) t u =
    count_groups-Distinct jobs _
      (count_group-Distinct (state_text r.state) (priority_text r.priority) t u)

count_groups-depth :
    (state priority : String) (jobs : List JobRow) (t : List QueueDepth)
    → depth_in (first (is_depth_of state priority) (count_groups jobs t))
      ≡ depth_in (first (is_depth_of state priority) t) + count (is_group state priority) jobs
unfolding count_groups count
count_groups-depth state priority [] t = omega arith
count_groups-depth state priority (r ∷ jobs) t =
    let s = state_text r.state in
    let p = priority_text r.priority in
    let rest = count_groups-depth state priority jobs (count_group s p t) in
    elim (Bool-cases (is_group state priority r)) [
      | inl m ↦
          let a : s ≡ state = beq→eq _ _ (ground arith) in
          let b : p ≡ priority = beq→eq _ _ (ground arith) in
          let here : depth_in (first (is_depth_of state priority) (count_group s p t))
              ≡ suc (depth_in (first (is_depth_of state priority) t)) =
            rw (a, b) (count_group-here state priority t) in
          rw (m, rest, here) (omega arith)
      | inr m ↦ rw (m, rest, count_group-elsewhere s p state priority t m) refl
    ]

set_depths-miss :
    (state priority : String) (t : List QueueDepth) (depths : String → String → ℕ)
    → first (is_depth_of state priority) t ≡ none
    → set_depths t depths state priority ≡ depths state priority
unfolding set_depths first
set_depths-miss state priority [] depths h = refl
set_depths-miss state priority (q ∷ t) depths h = elim (Bool-cases (is_depth_of state priority q)) [
  | inl m ↦ absurd (ground arith)
  | inr m ↦ set_depths-miss state priority t (set_depth q depths) (rw m at h) ∙ rw m refl
]

-- The gauge shows the depth listed, and what it showed before where none is listed.
abbrev shown_after : Option QueueDepth → ℕ → ℕ
shown_after none before = before
shown_after (some q) before = q.depth

set_depths-first :
    (state priority : String) (t : List QueueDepth) (depths : String → String → ℕ)
    → Distinct t
    → set_depths t depths state priority
      ≡ shown_after (first (is_depth_of state priority) t) (depths state priority)
unfolding set_depths first
set_depths-first state priority [] depths u = refl
set_depths-first state priority (q ∷ t) depths u =
    elim (Bool-cases (is_depth_of state priority q)) [
      | inl m ↦
          let (a, b) = same_group state priority q m in
          let gone : first (is_depth_of state priority) t ≡ none = rw⁻¹ (a, b) u.0 in
          rw m (set_depths-miss state priority t (set_depth q depths) gone ∙ rw m refl)
      | inr m ↦ rw m (set_depths-first state priority t (set_depth q depths) u.1 ∙ rw m refl)
    ]

count_group-Positive :
    (state priority : String) (t : List QueueDepth)
    → All Positive t
    → All Positive (count_group state priority t)
unfolding count_group
count_group-Positive state priority [] all = (omega arith, tt)
count_group-Positive state priority (q ∷ t) all = elim (Bool-cases (is_depth_of state priority q)) [
  | inl m ↦ rw m (omega arith, all.1)
  | inr m ↦ rw m (all.0, count_group-Positive state priority t all.1)
]

count_groups-Positive :
    (jobs : List JobRow) (t : List QueueDepth) → All Positive t → All Positive (count_groups jobs t)
unfolding count_groups
count_groups-Positive [] t all = all
count_groups-Positive (r ∷ jobs) t all =
    count_groups-Positive jobs _
      (count_group-Positive (state_text r.state) (priority_text r.priority) t all)

listed_or_kept :
    (o : Option QueueDepth) (before n : ℕ)
    → ((q : QueueDepth) → o ≡ some q → Positive q)
    → depth_in o ≡ n
    → shown_after o before ≡ (if ltb 0 n then n else before)
listed_or_kept none before n positive h = ground arith
listed_or_kept (some q) before n positive h = ground (arith, positive q refl)

-- After a metrics step the gauge of a state and a priority shows how many jobs have them, and what
-- it showed before where there is none.
pub metrics_step-queue_depth :
    (now : ℕ) (ready : Bool) (d : Database) (g : Gauges) (state priority : String)
    → let n = count (is_group state priority) d.jobs in
      (metrics_step now ready d g).queue_depth state priority
      ≡ (if ltb 0 n then n else g.queue_depth state priority)
unfolding metrics_step get_queue_depths first
metrics_step-queue_depth now ready d g state priority =
    let counts = count_groups d.jobs [] in
    let found = first (is_depth_of state priority) counts in
    let n = count (is_group state priority) d.jobs in
    let total : depth_in found ≡ n = omega (arith, count_groups-depth state priority d.jobs []) in
    let positive = λ (q : QueueDepth) (e : found ≡ some q).
      first-All Positive (is_depth_of state priority) counts q (count_groups-Positive d.jobs [] tt)
        e in
    set_depths-first state priority counts g.queue_depth (count_groups-Distinct d.jobs [] tt)
    ∙ listed_or_kept found (g.queue_depth state priority) n positive total
