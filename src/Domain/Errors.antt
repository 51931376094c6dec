-- ===== src/Domain/Errors.antt =====
-- The reason codes that outcomes carry (the texts of application/job_policy.py and services.py) and
-- the exceptions that the handlers tell apart.
use versarr.Base.{Bool, String, false, inl, inr, refl, true, ◌≡◌, ◌⊎◌}

pub data ReasonCode : Type 0 where
  sidecar_deleted_preserved existing_sidecar_preserved manual_edit_preserved : ReasonCode
  existing_embedded_lyrics_preserved cooldown_active lookup : ReasonCode
  provider_throttled provider_retry_exhausted provider_transient_failure : ReasonCode
  provider_request_rejected lyrics_not_found provider_rejected provider_missing_lyrics : ReasonCode
  provenance_repaired sidecar_written : ReasonCode
  media_missing invalid_media_or_path filesystem_transient unexpected_error : ReasonCode
  orphan_recovered : ReasonCode
  retry_exhausted : ReasonCode → ReasonCode

-- What an `except` clause sees: the class in the hierarchy, and `type(error).__name__`.
-- `FileNotFoundError` is an `OSError`; `CancelledError` is no `Exception`.
pub data Raised : Type 0 where
  file_not_found : Raised
  value_error os_error other_error : String → Raised
  cancelled : Raised

abbrev pub class_name : Raised → String
class_name Raised.file_not_found = "FileNotFoundError"
class_name (Raised.value_error c) = c
class_name (Raised.os_error c) = c
class_name (Raised.other_error c) = c
class_name Raised.cancelled = "CancelledError"

-- What `except Exception` catches.
abbrev pub is_exception : Raised → Bool
is_exception Raised.cancelled = false
is_exception _ = true

pub data Result {ℓ} (A : Type ℓ) : Type ℓ where
  ok : A → Result A
  raised : Raised → Result A

pub Result-cases :
    {A : Type 0} (r : Result A) → ((a : A) × r ≡ ok a) ⊎ ((e : Raised) × r ≡ raised e)
Result-cases (ok a) = inl (a, refl)
Result-cases (raised e) = inr (e, refl)
