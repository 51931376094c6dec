-- ===== src/Provenance/Laws.antt =====
-- Reading back provenance and cooldowns.
use mathlib.Core.Option
use text.Mathlib.TextEquality.{eq_iff}
use versarr.Base.{
  All, Bool-cases, FilePath, List, Option, Option-cases, String, Unique, [], ap, arith, beq→eq,
  first, first-update, first-upsert, if◌then◌else◌, inl, inr, keyed, nat_eq, none, path_eq, refl,
  some, string_eq, subst, sym, true, upsert, upsert-Unique, ℕ, ◌&&◌, ◌==◌, ◌∷◌, ◌≡◌, ◌≢◌,
}
use versarr.Domain.{ProvenanceRecord, ProviderStatus}
use versarr.Provenance.{
  cooldown_values, get_cooldown, get_provenance, mark_manual_diverged, mark_sidecar_deleted,
  provenance_values, record_cooldown, record_provenance, with_media,
}
use versarr.Schema.{CooldownRow, ProvenanceRow}

-- What was recorded is read back; every other track's record is as it was.
pub get-record_provenance :
    (now : ℕ) (p : ProvenanceRecord) (path : FilePath) (rows : List ProvenanceRow)
    → get_provenance path (record_provenance now p rows)
      ≡ (if p.media_path == path then some p else get_provenance path rows)
unfolding get_provenance record_provenance
get-record_provenance now p path rows =
    rw (first-upsert (λ r. r.media_path) (provenance_values now p) path rows)
      (elim (Bool-cases (p.media_path == path)) [ inl m ↦ rw m | inr m ↦ rw m ])

-- Marking a divergence or a deletion sets that flag of the track's record as it is read, and changes
-- no other record.
pub get-mark :
    (now : ℕ) (path path' : FilePath) (rows : List ProvenanceRow)
    → (get_provenance path' (mark_manual_diverged now path rows)
        ≡ Option.map
            (λ p. if p.media_path == path then record p { manual_diverged = true } else p)
            (get_provenance path' rows))
      × (get_provenance path' (mark_sidecar_deleted now path rows)
          ≡ Option.map
              (λ p. if p.media_path == path then record p { sidecar_deleted = true } else p)
              (get_provenance path' rows))
unfolding get_provenance mark_manual_diverged mark_sidecar_deleted
get-mark now path path' rows = (
  rw
      (first-update (λ r. r.media_path) path' (with_media path)
        (λ r. record r { manual_diverged = true; updated_at = now }) rows (λ _. refl))
      (elim (Option-cases (first (with_media path') rows)) [
        | inl n ↦ rw n
        | inr (x, n) ↦ rw n (ground arith)
      ]),
  rw
      (first-update (λ r. r.media_path) path' (with_media path)
        (λ r. record r { sidecar_deleted = true; updated_at = now }) rows (λ _. refl))
      (elim (Option-cases (first (with_media path') rows)) [
        | inl n ↦ rw n
        | inr (x, n) ↦ rw n (ground arith)
      ]),
)

abbrev for_provider : String → Option CooldownRow → Option CooldownRow
for_provider provider none = none
for_provider provider (some r) = if r.provider_name == provider then some r else none

first-absent :
    (key provider : String) (rows : List CooldownRow)
    → All (λ r. r.lookup_key ≢ key) rows
    → first (λ r. r.lookup_key == key && r.provider_name == provider) rows ≡ none
unfolding first
first-absent key provider [] all = refl
first-absent key provider (r ∷ t) all =
    ground (arith, all.0, eq_iff r.lookup_key key, first-absent key provider t all.1)

-- A search by key and provider, on a table whose keys are unique, is the search by key with a test of
-- the provider.
first-both :
    (key provider : String) (rows : List CooldownRow)
    → Unique (λ r. r.lookup_key) rows
    → first (λ r. r.lookup_key == key && r.provider_name == provider) rows
      ≡ for_provider provider (first (keyed (λ r. r.lookup_key) key) rows)
unfolding first
first-both key provider [] u = refl
first-both key provider (r ∷ t) u = elim (Bool-cases (r.lookup_key == key)) [
  | inl m ↦
      let e : r.lookup_key ≡ key = beq→eq r.lookup_key key m in
      let gone = first-absent key provider t (subst (λ k. All (λ s. s.lookup_key ≢ k) t) e u.0) in
      rw m (rw gone)
  | inr m ↦ rw m (first-both key provider t u.1)
]

-- With unique keys, after a cooldown is recorded its key reads back its end for its provider and
-- nothing for another one, and other keys read as before.
pub get-record_cooldown :
    (now : ℕ) (key provider key' provider' : String) (outcome : ProviderStatus) (until : ℕ)
    (rows : List CooldownRow)
    → Unique (λ r. r.lookup_key) rows
    → get_cooldown key' provider' (record_cooldown now key provider outcome until rows) ≡ (
        if key == key'
        then if provider == provider' then some until else none
        else get_cooldown key' provider' rows)
unfolding get_cooldown record_cooldown
get-record_cooldown now key provider key' provider' outcome until rows u =
    let row = cooldown_values now key provider outcome until in
    rw
      (first-both key' provider' (upsert (λ r. r.lookup_key) row rows)
        (upsert-Unique (λ r. r.lookup_key) row rows u))
      (rw (first-upsert (λ r. r.lookup_key) row key' rows) (elim (Bool-cases (key == key')) [
        | inl m ↦ rw m (elim (Bool-cases (provider == provider')) [ inl n ↦ rw n | inr n ↦ rw n ])
        | inr m ↦ rw m (ap (Option.map (λ r. r.until_at)) (sym (first-both key' provider' rows u)))
      ]))
