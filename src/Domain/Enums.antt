-- ===== src/Domain/Enums.antt =====
-- src/versarr/domain/enums.py. A StrEnum member is stored as its text and read back by the class;
-- the model's tables hold the member, and `to_text`/`of_text` are the two conversions.
use versarr.Base.{
  Bool, true, false, Option, none, some, String, ◌≡◌, refl, ◌==◌, string_eq, if◌then◌else◌,
}

pub data TriggerKind : Type 0 where
  watcher reconciliation startup manual_rescan force_rescan : TriggerKind

pub data JobPriority : Type 0 where
  force_manual manual watcher reconciliation : JobPriority

pub data JobState : Type 0 where
  pending processing completed failed : JobState

pub data ProviderStatus : Type 0 where
  matched not_found ambiguous invalid_content rejected transient_failure throttled : ProviderStatus

pub data ProcessingCategory : Type 0 where
  written preserved retry deferred terminal noop : ProcessingCategory

pub data RetryClassification : Type 0 where
  file_transient provider_transient unclassified : RetryClassification

pub data ControlRequestType : Type 0 where
  rescan_path full_scan : ControlRequestType

pub data ControlRequestStatus : Type 0 where
  pending claimed completed failed : ControlRequestStatus

pub data ScanKind : Type 0 where
  startup reconciliation : ScanKind

abbrev pub is_pending : JobState → Bool
is_pending JobState.pending = true
is_pending _ = false

abbrev pub is_processing : JobState → Bool
is_processing JobState.processing = true
is_processing _ = false

abbrev pub is_failed : JobState → Bool
is_failed JobState.failed = true
is_failed _ = false

abbrev pub is_open_request : ControlRequestStatus → Bool
is_open_request ControlRequestStatus.pending = true
is_open_request _ = false

abbrev pub scan_kind_beq : ScanKind → ScanKind → Bool
scan_kind_beq ScanKind.startup ScanKind.startup = true
scan_kind_beq ScanKind.reconciliation ScanKind.reconciliation = true
scan_kind_beq _ _ = false

abbrev pub state_text : JobState → String
state_text JobState.pending = "pending"
state_text JobState.processing = "processing"
state_text JobState.completed = "completed"
state_text JobState.failed = "failed"

-- `JobState(text)`: no member of that text is a ValueError.
unfoldable pub state_of_text : String → Option JobState
state_of_text t =
    if t == "pending"
    then some JobState.pending
    else if t == "processing"
    then some JobState.processing
    else if t == "completed"
    then some JobState.completed
    else if t == "failed"
    then some JobState.failed
    else none

abbrev pub priority_text : JobPriority → String
priority_text JobPriority.force_manual = "force_manual"
priority_text JobPriority.manual = "manual"
priority_text JobPriority.watcher = "watcher"
priority_text JobPriority.reconciliation = "reconciliation"

unfoldable pub priority_of_text : String → Option JobPriority
priority_of_text t =
    if t == "force_manual"
    then some JobPriority.force_manual
    else if t == "manual"
    then some JobPriority.manual
    else if t == "watcher"
    then some JobPriority.watcher
    else if t == "reconciliation"
    then some JobPriority.reconciliation
    else none

abbrev pub trigger_text : TriggerKind → String
trigger_text TriggerKind.watcher = "watcher"
trigger_text TriggerKind.reconciliation = "reconciliation"
trigger_text TriggerKind.startup = "startup"
trigger_text TriggerKind.manual_rescan = "manual_rescan"
trigger_text TriggerKind.force_rescan = "force_rescan"

unfoldable pub trigger_of_text : String → Option TriggerKind
trigger_of_text t =
    if t == "watcher"
    then some TriggerKind.watcher
    else if t == "reconciliation"
    then some TriggerKind.reconciliation
    else if t == "startup"
    then some TriggerKind.startup
    else if t == "manual_rescan"
    then some TriggerKind.manual_rescan
    else if t == "force_rescan"
    then some TriggerKind.force_rescan
    else none

pub state_roundtrip : (s : JobState) → state_of_text (state_text s) ≡ some s
unfolding state_of_text
state_roundtrip JobState.pending = refl
state_roundtrip _ = refl

pub priority_roundtrip : (p : JobPriority) → priority_of_text (priority_text p) ≡ some p
unfolding priority_of_text
priority_roundtrip JobPriority.manual = refl
priority_roundtrip _ = refl

pub trigger_roundtrip : (k : TriggerKind) → trigger_of_text (trigger_text k) ≡ some k
unfolding trigger_of_text
trigger_roundtrip TriggerKind.watcher = refl
trigger_roundtrip _ = refl
