-- ===== src/Policy/Tests.antt =====
-- Tests of the policy.
use versarr.Base.{false, refl, true, ◌↔◌, ◌≡◌}
use versarr.Policy.{JobAction, JobFacts, decide}
use versarr.Policy.Fetch.{Permitted, decide-fetch_iff}

-- A sidecar that was edited, in a job that is forced with every permission.
abbrev edited : JobFacts
edited = record {
  sidecar_exists = true;
  embedded_exists = false;
  has_provenance = true;
  provenance_sidecar_deleted = false;
  provenance_hash_matches_sidecar = false;
  cooldown_active = true;
  attempt_count = 1;
  force = true;
  overwrite_existing = true;
  allow_manual_overwrite = true;
}

edited_preserved :
    (decide (record edited { allow_manual_overwrite = false })).action ≡ JobAction.preserve
unfolding decide
edited_preserved = refl

decide-fetch_iff_example : ((decide edited).action ≡ JobAction.fetch) ↔ Permitted edited
decide-fetch_iff_example = decide-fetch_iff edited
