-- ===== src/Policy/Fetch.antt =====
-- When the policy looks lyrics up, and which flags it raises.
use versarr.Base.{arith, false, true, ◌<◌, ◌↔◌, ◌≡◌, ◌⊎◌}
use versarr.Policy.{JobAction, JobFacts, decide}

-- What stands between a track and a lookup, each obstacle with what lifts it.
pub record Permitted (f : JobFacts) : Type 0 where
  pub unknown_sidecar : f.sidecar_exists ≡ true → f.has_provenance ≡ false → 1 < f.attempt_count
  pub own_sidecar :
      f.sidecar_exists ≡ true
      → f.has_provenance ≡ true
      → (f.force ≡ true) × (f.overwrite_existing ≡ true)
  pub edited_sidecar :
      f.sidecar_exists ≡ true
      → f.has_provenance ≡ true
      → f.provenance_hash_matches_sidecar ≡ false
      → f.allow_manual_overwrite ≡ true
  pub deleted_sidecar : f.sidecar_exists ≡ false → f.has_provenance ≡ true → f.force ≡ true
  pub embedded_only : f.sidecar_exists ≡ false → f.embedded_exists ≡ false
  pub cooled_down :
      f.cooldown_active ≡ true
      → (f.force ≡ true) ⊎ ((f.sidecar_exists ≡ true) × (f.has_provenance ≡ false))

pub decide-fetch→Permitted : (f : JobFacts) → (decide f).action ≡ JobAction.fetch → Permitted f
unfolding decide
decide-fetch→Permitted f h = ground arith

pub Permitted→decide-fetch : (f : JobFacts) → Permitted f → (decide f).action ≡ JobAction.fetch
unfolding decide
Permitted→decide-fetch f p = ground arith

-- The policy looks lyrics up exactly when each obstacle is lifted: a sidecar with no record needs a
-- second attempt, one of Versarr's own needs force and overwrite, an edited one manual overwrite
-- too, a deleted one force; embedded lyrics with no sidecar are never passed over, and a cooldown
-- needs force or a missing record to repair.
pub decide-fetch_iff : (f : JobFacts) → ((decide f).action ≡ JobAction.fetch) ↔ Permitted f
decide-fetch_iff f = (decide-fetch→Permitted f, Permitted→decide-fetch f)

-- More permissions never turn a lookup into something else.
pub decide_monotone :
    (f : JobFacts)
    → (decide f).action ≡ JobAction.fetch
    → (decide (record f {
      force = true;
      overwrite_existing = true;
      allow_manual_overwrite = true;
    })).action
      ≡ JobAction.fetch
unfolding decide
decide_monotone f h = ground arith

-- The flags of a decision: a deletion is marked exactly on an unforced track whose recorded sidecar
-- is gone and not marked yet, a divergence exactly on a recorded sidecar with another hash, and a
-- repair is asked for exactly on a second attempt at a sidecar without a record.
pub decide_flags :
    (f : JobFacts)
    → (((decide f).mark_sidecar_deleted ≡ true) ↔ (
        (f.sidecar_exists ≡ false)
        × (f.has_provenance ≡ true)
        × (f.force ≡ false)
        × (f.provenance_sidecar_deleted ≡ false)))
      × (((decide f).mark_manual_diverged ≡ true) ↔ (
          (f.sidecar_exists ≡ true)
          × (f.has_provenance ≡ true)
          × (f.provenance_hash_matches_sidecar ≡ false)))
      × (((decide f).repair_missing_provenance ≡ true)
          ↔ ((f.sidecar_exists ≡ true) × (f.has_provenance ≡ false) × (1 < f.attempt_count)))
unfolding decide
decide_flags f = ground arith
