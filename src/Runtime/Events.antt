-- ===== src/Runtime/Events.antt =====
-- Which events reach the detector.
use versarr.Base.{
  Bool-cases, FilePath, List, Option-cases, String, [], arith, beq_self, false, first, first-insert,
  first-update_self, first-upsert, inl, inr, keep, nat_eq, none, not, path_eq, refl, some,
  string_eq, true, ℕ, ◌==◌, ◌∷◌, ◌≡◌,
}
use versarr.Domain.{FileStabilityState}
use versarr.Runtime.{
  Files, Watching, forget_hash, handle_filesystem_event, hash_of, is_own_write,
  remember_sidecar_hash,
}
use versarr.Scanner.{Matching, is_ignored_temp_file, resolve_candidate_media_path, suffix_of}
use versarr.Stability.{Detector, at_path, observe}

-- The detector waits for `media` since `now`.
abbrev pub IsWatched : FilePath → ℕ → Detector → Type 0
IsWatched media now d =
    (s : FileStabilityState) × (first (at_path media) d.states ≡ some s)
    × (s.last_seen_at ≡ now)
    × (s.successful_probes ≡ 0)

abbrev newly_seen : ℕ → FilePath → FileStabilityState
newly_seen now media = record {
  candidate_path = media;
  first_seen_at = now;
  last_seen_at = now;
  last_size = none;
  last_mtime_ns = none;
  successful_probes = 0;
}

observe-IsWatched :
    (now : ℕ) (media : FilePath) (d : Detector) → IsWatched media now (observe now media d)
unfolding observe
observe-IsWatched now media d = elim (Option-cases (first (at_path media) d.states)) [
  | inl n ↦ rw n (
    newly_seen now media,
    rw (first-insert (at_path media) (newly_seen now media) d.states) (rw (n, beq_self media) refl),
    refl,
    refl,
  )
  | inr (s, e) ↦ rw e (
    record s { last_seen_at = now; successful_probes = 0 },
    rw
        (first-update_self (λ r. r.candidate_path) media
          (λ r. record r { last_seen_at = now; successful_probes = 0 }) d.states (λ _. refl))
        (rw e refl),
    refl,
    refl,
  )
]

first-forget :
    (path : FilePath) (hs : List (FilePath × String))
    → first (hash_of path) (keep (λ h. not (hash_of path h)) hs) ≡ none
unfolding first keep
first-forget path [] = refl
first-forget path (h ∷ t) = elim (Bool-cases (hash_of path h)) [
  | inl e ↦ rw e (first-forget path t)
  | inr e ↦ rw e (rw e (first-forget path t))
]

module _ (m : Matching) (patterns : List String) (files : Files) (path media : FilePath)
    (shown : is_ignored_temp_file m path patterns ≡ false)
    (resolved : resolve_candidate_media_path m files.exists path ≡ some media) where
  -- An event that is not ignored, of a file with a media path, is observed unless it is the
  -- runtime's own write.
  pub event-IsWatched :
      (now : ℕ) (w : Watching)
      → is_own_write files path w ≡ false
      → IsWatched media now (handle_filesystem_event m patterns files now path w).stability
  unfolding handle_filesystem_event
  event-IsWatched now w other =
      rw (shown, resolved, other)
        elim (Bool-cases (m.lower (suffix_of path) == ".lrc")) [
          | inl e ↦ rw e (observe-IsWatched now media w.stability)
          | inr e ↦ rw e (observe-IsWatched now media w.stability)
        ]

  own_event :
      (now : ℕ) (w : Watching)
      → m.lower (suffix_of path) ≡ ".lrc"
      → is_own_write files path w ≡ true
      → handle_filesystem_event m patterns files now path w ≡ forget_hash path w
  unfolding handle_filesystem_event
  own_event now w lrc own = rw (shown, resolved, lrc, own) refl

  kept :
      (hash : String) (w : Watching)
      → (forget_hash path (remember_sidecar_hash path hash w)).stability ≡ w.stability
  unfolding remember_sidecar_hash
  kept hash w = refl

  is_own_write-remembered :
      (hash : String) (w : Watching)
      → files.exists path ≡ true
      → files.normalized_hash path ≡ some hash
      → is_own_write files path (remember_sidecar_hash path hash w) ≡ true
  unfolding is_own_write remember_sidecar_hash
  is_own_write-remembered hash w there same =
      rw
        (there, same, first-upsert (λ h. h.0) (path, hash) path w.suppression_hashes, beq_self path)
        (beq_self hash)

  is_own_write-forgotten : (w : Watching) → is_own_write files path (forget_hash path w) ≡ false
  unfolding is_own_write
  is_own_write-forgotten w = rw (first-forget path w.suppression_hashes) (ground arith)

  -- The event of a sidecar that the runtime has just written itself, and that is as it wrote it, is
  -- not observed, and the next event of it is, where its path is not ignored and has a media path.
  pub own_write_once :
      (hash : String) (now later : ℕ) (w : Watching)
      → m.lower (suffix_of path) ≡ ".lrc"
      → files.exists path ≡ true
      → files.normalized_hash path ≡ some hash
      → let w' =
          handle_filesystem_event m patterns files now path (remember_sidecar_hash path hash w) in
        (w'.stability ≡ w.stability)
        × IsWatched media later (handle_filesystem_event m patterns files later path w').stability
  own_write_once hash now later w lrc there same =
      let w₁ = remember_sidecar_hash path hash w in
      let event : handle_filesystem_event m patterns files now path w₁ ≡ forget_hash path w₁ =
        own_event now w₁ lrc (is_own_write-remembered hash w there same) in
      rw event
        (kept hash w, event-IsWatched later (forget_hash path w₁) (is_own_write-forgotten w₁))
