-- ===== src/Sidecar/Success.antt =====
-- When a write succeeds, and what it then leaves.
use versarr.Base.{
  Bool, FilePath, List, Option, String, [], arith, beq_self, false, if◌then◌else◌, is_some, nat_eq,
  none, not, path_eq, refl, some, some-injective, string_eq, sym, true, ◌&&◌, ◌==◌, ◌∙◌, ◌∷◌, ◌≡◌,
  ◌≢◌,
}
use versarr.Domain.{Raised, ok, raised}
use versarr.Policy.{plain}
use versarr.Processor.Inputs.{Services, SidecarWriteResult}
use versarr.Scanner.{suffix_of}
use versarr.Sidecar.{
  Calls, Disk, Plan, Written, checked_final, checked_temp, move, plan_of, put, read_as,
  replace_sidecar, stored, write_encoded, write_result, write_sync, write_temp,
}
use versarr.Sidecar.Writes.{IsPayload, either_way, put_ne}

-- Where an answer is a success, it is this result, and the sidecar holds the payload and the temporary
-- file is gone.
abbrev IsDone : Plan → Bool → Written → Type 0
IsDone j existed x =
    (w : SidecarWriteResult)
    → x.0 ≡ ok w
    → (x.1 j.sidecar_path ≡ some j.payload)
      × (x.1 j.temp_path ≡ none)
      × (w ≡ write_result j existed)

module _ (c : Calls) (j : Plan) (apart : j.sidecar_path ≢ j.temp_path) where
  error-IsDone :
      (existed : Bool) (e : Raised) (disk : Disk) (past : List Disk)
      → IsDone j existed (raised e, disk, past)
  error-IsDone existed e disk past w h = absurd (ground arith)

  final-IsDone :
      (existed : Bool) (disk : Disk) (past : List Disk) (bytes : Option String)
      → (disk j.sidecar_path ≡ some j.payload) × (disk j.temp_path ≡ none)
      → IsDone j existed (checked_final c j existed disk past bytes)
  final-IsDone existed disk past none there = error-IsDone existed _ disk past
  final-IsDone existed disk past (some bytes) there =
      either_way (IsDone j existed) (not (bytes == j.payload)) _ _
        (error-IsDone existed _ disk past)
        (either_way (IsDone j existed) c.directory_fsync_fails _ _
          (error-IsDone existed _ disk past) (λ w h. (there.0, there.1, ground arith)))

  replace-IsDone :
      (disk : Disk) (past : List Disk)
      → disk j.temp_path ≡ some j.payload
      → IsDone j (is_some (disk j.sidecar_path)) (replace_sidecar c j disk past)
  unfolding replace_sidecar
  replace-IsDone disk past e =
      let existed = is_some (disk j.sidecar_path) in
      let moved = move j.temp_path j.sidecar_path disk in
      let there : moved j.sidecar_path ≡ some j.payload = rw (beq_self j.sidecar_path) e in
      let gone : moved j.temp_path ≡ none =
        put_ne j.sidecar_path j.temp_path (disk j.temp_path) (put j.temp_path none disk)
          (λ q. apart (sym q))
        ∙ rw (beq_self j.temp_path) refl in
      either_way (IsDone j existed) c.replace_fails _ _ (error-IsDone existed _ disk past)
        (final-IsDone existed moved (disk ∷ past) _ (there, gone))

  checked-IsDone :
      (disk : Disk) (past : List Disk) (bytes : Option String)
      → disk j.temp_path ≡ some j.payload
      → IsDone j (is_some (disk j.sidecar_path)) (checked_temp c j disk past bytes)
  checked-IsDone disk past none e = error-IsDone _ _ disk past
  checked-IsDone disk past (some bytes) e =
      let existed = is_some (disk j.sidecar_path) in
      either_way (IsDone j existed) (bytes == j.payload) _ _ (replace-IsDone disk past e) (
        either_way (IsDone j existed) c.unlink_fails _ _ (error-IsDone existed _ disk past)
          (error-IsDone existed _ (put j.temp_path none disk) (disk ∷ past)))

  stored-IsDone :
      (disk : Disk) (past : List Disk) (part : Option String)
      → IsDone j (is_some (disk j.sidecar_path)) (stored c j disk past part)
  stored-IsDone disk past (some part) =
      error-IsDone _ _ (put j.temp_path (some part) disk) (disk ∷ past)
  stored-IsDone disk past none =
      let complete = put j.temp_path (some j.payload) disk in
      rw⁻¹ (put_ne j.temp_path j.sidecar_path (some j.payload) disk apart)
        (checked-IsDone complete (disk ∷ past) _ (rw (beq_self j.temp_path) refl))

  write_temp-IsDone : (old : Disk) → IsDone j (is_some (old j.sidecar_path)) (write_temp c j old)
  unfolding write_temp
  write_temp-IsDone old =
      let existed = is_some (old j.sidecar_path) in
      let opened = put j.temp_path (some "") old in
      either_way (IsDone j existed) (is_some (old j.temp_path)) _ _ (error-IsDone existed _ old [])
        (either_way (IsDone j existed) c.open_fails _ _ (error-IsDone existed _ old []) (
          rw⁻¹ (put_ne j.temp_path j.sidecar_path (some "") old apart)
            (stored-IsDone opened (old ∷ []) c.stored_part)))

passes :
    (P : Written → Type 0) (b : Bool) (x y : Written) → b ≡ false → P y → P (if b then x else y)
passes P true x y h p = absurd (cc)
passes P false x y h p = p

-- Every call of the system that a write makes succeeds, and reads give what was written.
abbrev pub NoFaults : Calls → String → Type 0
NoFaults c payload =
    (c.mkdir_fails ≡ false)
    × (c.open_fails ≡ false)
    × (c.stored_part ≡ none)
    × (c.read_temp payload ≡ some payload)
    × (c.replace_fails ≡ false)
    × (c.read_final payload ≡ some payload)
    × (c.directory_fsync_fails ≡ false)

module _ (c : Calls) (j : Plan) (apart : j.sidecar_path ≢ j.temp_path)
    (works : NoFaults c j.payload) where
  replace-works :
      (disk : Disk) (past : List Disk)
      → disk j.temp_path ≡ some j.payload
      → (replace_sidecar c j disk past).0 ≡ ok (write_result j (is_some (disk j.sidecar_path)))
  unfolding replace_sidecar
  replace-works disk past e =
      let (_, _, _, _, r, f, s) = works in
      let moved = move j.temp_path j.sidecar_path disk in
      let there : moved j.sidecar_path ≡ some j.payload = rw (beq_self j.sidecar_path) e in
      rw (r, there, f, beq_self j.payload, s) refl

  complete-works :
      (disk : Disk) (past : List Disk) (o : Option String)
      → disk j.temp_path ≡ some j.payload
      → o ≡ some j.payload
      → (checked_temp c j disk past o).0 ≡ ok (write_result j (is_some (disk j.sidecar_path)))
  complete-works disk past none e h = absurd (ground arith)
  complete-works disk past (some bytes) e h =
      let same : bytes ≡ j.payload = some-injective _ _ h in
      rw (same, beq_self j.payload) (replace-works disk past e)

  stored-works :
      (disk : Disk) (past : List Disk) (part : Option String)
      → part ≡ none
      → (stored c j disk past part).0 ≡ ok (write_result j (is_some (disk j.sidecar_path)))
  stored-works disk past (some part) h = absurd (ground arith)
  stored-works disk past none h =
      let complete = put j.temp_path (some j.payload) disk in
      let there : complete j.temp_path ≡ some j.payload = rw (beq_self j.temp_path) refl in
      let read : read_as c.read_temp (complete j.temp_path) ≡ some j.payload = rw there (works.3) in
      rw⁻¹ (put_ne j.temp_path j.sidecar_path (some j.payload) disk apart)
        (complete-works complete (disk ∷ past) _ there read)

  write_temp-works :
      (old : Disk)
      → old j.temp_path ≡ none
      → (write_temp c j old).0 ≡ ok (write_result j (is_some (old j.sidecar_path)))
  unfolding write_temp
  write_temp-works old free =
      let P = λ (x : Written). x.0 ≡ ok (write_result j (is_some (old j.sidecar_path))) in
      passes P (is_some (old j.temp_path)) _ _ (rw free refl) (
        passes P c.open_fails _ _ works.1 (
          rw⁻¹ (put_ne j.temp_path j.sidecar_path (some "") old apart)
            (stored-works (put j.temp_path (some "") old) (old ∷ []) c.stored_part works.2)))

abbrev pub result_of : Services → FilePath → String → Bool → SidecarWriteResult
result_of services path text existed = record {
  sidecar_path = path;
  normalized_hash = services.hash_normalized_lyrics (services.normalize_lyrics_text text);
  created = not existed;
  replaced = existed;
}

module _ (c : Calls) (services : Services) (path temp : FilePath) (text : String) (old : Disk)
    (apart : path ≢ temp) where
  -- A success leaves the encoded text in the sidecar and no temporary file.
  abbrev IsStored : Written → Type 0
  IsStored x =
      (w : SidecarWriteResult)
      → x.0 ≡ ok w
      → (payload : String) × IsPayload c services text payload
        × (x.1 path ≡ some payload)
        × (x.1 temp ≡ none)
        × (w ≡ result_of services path text (is_some (old path)))

  error-IsStored : (e : Raised) → IsStored (raised e, old, [])
  error-IsStored e w h = absurd (ground arith)

  encoded-IsStored :
      (o : Option String)
      → c.encode (services.normalize_lyrics_text text) ≡ o
      → IsStored (
          write_encoded c path temp
            (services.hash_normalized_lyrics (services.normalize_lyrics_text text))
            old
            o)
  encoded-IsStored none e = error-IsStored _
  encoded-IsStored (some payload) e = λ w h.
      let digest = services.hash_normalized_lyrics (services.normalize_lyrics_text text) in
      let (a, b, d) = write_temp-IsDone c (plan_of path temp digest payload) apart old w h in
      (payload, e, a, b, d)

  -- A write that reports success has left the whole encoded text in the sidecar and no temporary
  -- file, and its result says whether a sidecar was there before, where the two paths differ.
  pub write_sync-stored :
      (w : SidecarWriteResult)
      → (write_sync c services path temp text old).0 ≡ ok w
      → (payload : String) × IsPayload c services text payload
        × ((write_sync c services path temp text old).1 path ≡ some payload)
        × ((write_sync c services path temp text old).1 temp ≡ none)
        × (w ≡ result_of services path text (is_some (old path)))
  unfolding write_sync
  write_sync-stored =
      either_way IsStored (not (c.lower (suffix_of path) == ".lrc")) _ _ (error-IsStored _) (
        either_way IsStored c.mkdir_fails _ _ (error-IsStored _) (
          either_way IsStored (is_some (old path) && c.is_symlink) _ _ (error-IsStored _)
            (encoded-IsStored (c.encode (services.normalize_lyrics_text text)) refl)))

  -- If every call of the system works, the text can be encoded, the path is that of a plain .lrc
  -- file or of none, and the temporary path is free and another one, the write succeeds.
  pub write_sync-works :
      (payload : String)
      → (c.lower (suffix_of path) == ".lrc") ≡ true
      → (is_some (old path) && c.is_symlink) ≡ false
      → IsPayload c services text payload
      → old temp ≡ none
      → NoFaults c payload
      → (write_sync c services path temp text old).0
        ≡ ok (result_of services path text (is_some (old path)))
  unfolding write_sync
  write_sync-works payload lrc plain e free works =
      let digest = services.hash_normalized_lyrics (services.normalize_lyrics_text text) in
      let P = λ (x : Written). x.0 ≡ ok (result_of services path text (is_some (old path))) in
      passes P (not (c.lower (suffix_of path) == ".lrc")) _ _ (rw lrc refl) (
        passes P c.mkdir_fails _ _ works.0 (
          passes P (is_some (old path) && c.is_symlink) _ _ plain
            (rw e (write_temp-works c (plan_of path temp digest payload) apart works old free))))
