-- ===== src/Sidecar/Writes.antt =====
-- What a write leaves on the disk, wherever it stops.
use versarr.Base.{
  All, All-imp, Bool, Bool-cases, FilePath, List, Option, String, [], arith, beq_self, false,
  if◌then◌else◌, inl, inr, is_some, nat_eq, none, not, path_beq_iff, path_eq, refl, some, string_eq,
  true, ◌&&◌, ◌==◌, ◌∙◌, ◌∷◌, ◌≡◌, ◌≢◌, ◌⊎◌,
}
use versarr.Processor.Inputs.{Services}
use versarr.Scanner.{suffix_of}
use versarr.Sidecar.{
  Calls, Disk, Plan, Written, checked_final, checked_temp, move, plan_of, put, replace_sidecar,
  stored, write_encoded, write_sync, write_temp,
}

-- The sidecar is the old one or the whole new one, and no file but it and the temporary one changed.
abbrev pub IsWhole : Plan → Disk → Disk → Type 0
IsWhole j old disk =
    ((disk j.sidecar_path ≡ old j.sidecar_path) ⊎ (disk j.sidecar_path ≡ some j.payload))
    × ((p : FilePath) → p ≢ j.sidecar_path → p ≢ j.temp_path → disk p ≡ old p)

-- All disks that a write passes through.
abbrev pub AllDisks : (Disk → Type 0) → Written → Type 0
AllDisks P w = P w.1 × All P w.2

pub put_ne :
    (path p : FilePath) (content : Option String) (disk : Disk)
    → p ≢ path
    → put path content disk p ≡ disk p
put_ne path p content disk ne = ground (arith, path_beq_iff p path)

module _ (c : Calls) (j : Plan) (old : Disk) (apart : j.sidecar_path ≢ j.temp_path) where
  temp-IsWhole :
      (content : Option String) (disk : Disk)
      → IsWhole j old disk
      → IsWhole j old (put j.temp_path content disk)
  temp-IsWhole content disk (here, others) = (
    rw (put_ne j.temp_path j.sidecar_path content disk apart) here,
    λ p a b. put_ne j.temp_path p content disk b ∙ others p a b,
  )

  move-IsWhole :
      (disk : Disk)
      → disk j.temp_path ≡ some j.payload
      → IsWhole j old disk
      → IsWhole j old (move j.temp_path j.sidecar_path disk)
  move-IsWhole disk e (here, others) = (
    inr (rw (beq_self j.sidecar_path) e),
    λ p a b.
        put_ne j.sidecar_path p (disk j.temp_path) (put j.temp_path none disk) a
        ∙ put_ne j.temp_path p none disk b
        ∙ others p a b,
  )

  final-IsWhole :
      (existed : Bool) (disk : Disk) (past : List Disk) (bytes : Option String)
      → IsWhole j old disk × All (IsWhole j old) past
      → AllDisks (IsWhole j old) (checked_final c j existed disk past bytes)
  final-IsWhole existed disk past none all = all
  final-IsWhole existed disk past (some bytes) all = elim (Bool-cases (bytes == j.payload)) [
    | inl m ↦ elim (Bool-cases c.directory_fsync_fails) [
      | inl f ↦ rw (m, f) all
      | inr f ↦ rw (m, f) all
    ]
    | inr m ↦ rw m all
  ]

  replace-IsWhole :
      (disk : Disk) (past : List Disk)
      → disk j.temp_path ≡ some j.payload
      → IsWhole j old disk
      → All (IsWhole j old) past
      → AllDisks (IsWhole j old) (replace_sidecar c j disk past)
  unfolding replace_sidecar
  replace-IsWhole disk past e whole all = elim (Bool-cases c.replace_fails) [
    | inl f ↦ rw f (whole, all)
    | inr f ↦ rw f (
        final-IsWhole (is_some (disk j.sidecar_path)) (move j.temp_path j.sidecar_path disk)
          (disk ∷ past) _ (move-IsWhole disk e whole, (whole, all)))
  ]

  checked-IsWhole :
      (disk : Disk) (past : List Disk) (bytes : Option String)
      → disk j.temp_path ≡ some j.payload
      → IsWhole j old disk
      → All (IsWhole j old) past
      → AllDisks (IsWhole j old) (checked_temp c j disk past bytes)
  checked-IsWhole disk past none e whole all = (whole, all)
  checked-IsWhole disk past (some bytes) e whole all = elim (Bool-cases (bytes == j.payload)) [
    | inl m ↦ rw m (replace-IsWhole disk past e whole all)
    | inr m ↦ elim (Bool-cases c.unlink_fails) [
      | inl f ↦ rw (m, f) (whole, all)
      | inr f ↦ rw (m, f) (temp-IsWhole none disk whole, (whole, all))
    ]
  ]

  stored-IsWhole :
      (disk : Disk) (past : List Disk) (part : Option String)
      → IsWhole j old disk
      → All (IsWhole j old) past
      → AllDisks (IsWhole j old) (stored c j disk past part)
  stored-IsWhole disk past (some part) whole all =
      (temp-IsWhole (some part) disk whole, (whole, all))
  stored-IsWhole disk past none whole all =
      checked-IsWhole (put j.temp_path (some j.payload) disk) (disk ∷ past) _
        (rw (beq_self j.temp_path) refl) (temp-IsWhole (some j.payload) disk whole) (whole, all)

  write_temp-IsWhole : AllDisks (IsWhole j old) (write_temp c j old)
  unfolding write_temp replace_sidecar
  write_temp-IsWhole =
      let start : IsWhole j old old = (inl refl, λ p a b. refl) in
      elim (Bool-cases (is_some (old j.temp_path))) [
        | inl m ↦ rw m (start, tt)
        | inr m ↦ elim (Bool-cases c.open_fails) [
          | inl f ↦ rw (m, f) (start, tt)
          | inr f ↦
              rw (m, f)
                (stored-IsWhole (put j.temp_path (some "") old) (old ∷ []) c.stored_part
                  (temp-IsWhole (some "") old start) (start, tt))
        ]
      ]

pub either_way :
    (P : Written → Type 0) (b : Bool) (x y : Written) → P x → P y → P (if b then x else y)
either_way P true x y p q = p
either_way P false x y p q = q

-- The payload of a text, where it can be encoded, is what a write stores.
abbrev pub IsPayload : Calls → Services → String → String → Type 0
IsPayload c services text payload = c.encode (services.normalize_lyrics_text text) ≡ some payload

abbrev pub IsOldOrNew : Calls → Services → FilePath → FilePath → String → Disk → Disk → Type 0
IsOldOrNew c services path temp text old disk =
    ((disk path ≡ old path)
      ⊎ ((payload : String) × IsPayload c services text payload × (disk path ≡ some payload)))
    × ((p : FilePath) → p ≢ path → p ≢ temp → disk p ≡ old p)

module _ (c : Calls) (services : Services) (path temp : FilePath) (text : String) (old : Disk)
    (apart : path ≢ temp) where
  stays : IsOldOrNew c services path temp text old old
  stays = (inl refl, λ p a b. refl)

  whole-IsOldOrNew :
      (digest payload : String) (disk : Disk)
      → IsPayload c services text payload
      → IsWhole (plan_of path temp digest payload) old disk
      → IsOldOrNew c services path temp text old disk
  whole-IsOldOrNew digest payload disk e (inl same, others) = (inl same, others)
  whole-IsOldOrNew digest payload disk e (inr new, others) = (inr (payload, e, new), others)

  encoded-IsOldOrNew :
      (digest : String) (o : Option String)
      → c.encode (services.normalize_lyrics_text text) ≡ o
      → AllDisks (IsOldOrNew c services path temp text old) (write_encoded c path temp digest old o)
  encoded-IsOldOrNew digest none e = (stays, tt)
  encoded-IsOldOrNew digest (some payload) e =
      let j = plan_of path temp digest payload in
      let (last, past) = write_temp-IsWhole c j old apart in
      (
        whole-IsOldOrNew digest payload _ e last,
        All-imp (IsWhole j old) (IsOldOrNew c services path temp text old)
            (λ disk w. whole-IsOldOrNew digest payload disk e w) _ past,
      )

  -- Whatever calls of the system fail, and wherever a write stops, the sidecar has its old content
  -- or the whole encoded new text, and no file but it and the temporary one has changed, where these
  -- two differ.
  pub write_sync-IsOldOrNew :
      AllDisks (IsOldOrNew c services path temp text old) (write_sync c services path temp text old)
  unfolding write_sync
  write_sync-IsOldOrNew =
      let digest = services.hash_normalized_lyrics (services.normalize_lyrics_text text) in
      let P = AllDisks (IsOldOrNew c services path temp text old) in
      either_way P (not (c.lower (suffix_of path) == ".lrc")) _ _ (stays, tt)
        (either_way P c.mkdir_fails _ _ (stays, tt)
          (either_way P (is_some (old path) && c.is_symlink) _ _ (stays, tt)
            (encoded-IsOldOrNew digest (c.encode (services.normalize_lyrics_text text)) refl)))
