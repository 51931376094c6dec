-- ===== src/Sidecar.antt =====
-- `AtomicLrcWriter._write_sync` of src/versarr/infrastructure/filesystem/sidecar.py on a disk that it
-- changes call by call. What each call of the system answers is given, failures included.
pub mod Writes
pub mod Success
pub mod Attempt
mod Tests
use versarr.Base.{
  Bool, FilePath, List, Option, String, [], if◌then◌else◌, is_some, nat_eq, none, not, path_eq,
  some, string_eq, ◌&&◌, ◌==◌, ◌∷◌,
}
use versarr.Domain.{Raised, Result, ok, raised}
use versarr.Processor.Inputs.{Services, SidecarWriteResult}
use versarr.Scanner.{suffix_of}

-- The content of each file, none where there is no file.
abbrev pub Disk : Type 0
Disk = FilePath → Option String

abbrev pub put : FilePath → Option String → Disk → Disk
put path content disk = λ p. if p == path then content else disk p

-- `os.replace`.
abbrev pub move : FilePath → FilePath → Disk → Disk
move source target disk = put target (disk source) (put source none disk)

-- The answers of the system to one write: `stored_part` is what a write that fails leaves in the file,
-- a read gives what it makes of the content, none for an `OSError`.
pub record Calls : Type 0 where
  pub lower : String → String
  pub mkdir_fails : Bool
  pub is_symlink : Bool
  pub encode : String → Option String
  pub open_fails : Bool
  pub stored_part : Option String
  pub read_temp : String → Option String
  pub unlink_fails : Bool
  pub replace_fails : Bool
  pub read_final : String → Option String
  pub directory_fsync_fails : Bool

-- The answer, the disk at the end, and the disks before it, the latest first.
abbrev pub Written : Type 0
Written = Result SidecarWriteResult × Disk × List Disk

abbrev pub os_error : Disk → List Disk → Written
os_error disk past = (raised (Raised.os_error "OSError"), disk, past)

abbrev pub value_error : String → Disk → Written
value_error name disk = (raised (Raised.value_error name), disk, [])

abbrev pub read_as : (String → Option String) → Option String → Option String
read_as read none = none
read_as read (some content) = read content

-- What one write is about: the sidecar, its temporary file, the bytes and their hash.
pub record Plan : Type 0 where
  pub sidecar_path : FilePath
  pub temp_path : FilePath
  pub payload : String
  pub digest : String

abbrev pub plan_of : FilePath → FilePath → String → String → Plan
plan_of path temp digest payload = record {
  sidecar_path = path;
  temp_path = temp;
  payload = payload;
  digest = digest;
}

abbrev pub write_result : Plan → Bool → SidecarWriteResult
write_result j existed = record {
  sidecar_path = j.sidecar_path;
  normalized_hash = j.digest;
  created = not existed;
  replaced = existed;
}

-- From the check of the final file on.
abbrev pub checked_final : Calls → Plan → Bool → Disk → List Disk → Option String → Written
checked_final c j existed disk past none = os_error disk past
checked_final c j existed disk past (some bytes) =
    if not (bytes == j.payload)
    then os_error disk past
    else if c.directory_fsync_fails
    then os_error disk past
    else (ok (write_result j existed), disk, past)

unfoldable pub replace_sidecar : Calls → Plan → Disk → List Disk → Written
replace_sidecar c j disk past =
    let replaced = move j.temp_path j.sidecar_path disk in
    if c.replace_fails
    then os_error disk past
    else checked_final c j (is_some (disk j.sidecar_path)) replaced (disk ∷ past)
        (read_as c.read_final (replaced j.sidecar_path))

-- From the check of the temporary file on.
abbrev pub checked_temp : Calls → Plan → Disk → List Disk → Option String → Written
checked_temp c j disk past none = os_error disk past
checked_temp c j disk past (some bytes) =
    if bytes == j.payload
    then replace_sidecar c j disk past
    else if c.unlink_fails
    then os_error disk past
    else os_error (put j.temp_path none disk) (disk ∷ past)

abbrev pub stored : Calls → Plan → Disk → List Disk → Option String → Written
stored c j disk past (some part) = os_error (put j.temp_path (some part) disk) (disk ∷ past)
stored c j disk past none =
    let complete = put j.temp_path (some j.payload) disk in
    checked_temp c j complete (disk ∷ past) (read_as c.read_temp (complete j.temp_path))

-- `open("xb")` and the write.
unfoldable pub write_temp : Calls → Plan → Disk → Written
write_temp c j disk =
    if is_some (disk j.temp_path)
    then (raised (Raised.os_error "FileExistsError"), disk, [])
    else if c.open_fails
    then os_error disk []
    else stored c j (put j.temp_path (some "") disk) (disk ∷ []) c.stored_part

abbrev pub write_encoded : Calls → FilePath → FilePath → String → Disk → Option String → Written
write_encoded c path temp digest disk none = value_error "UnicodeEncodeError" disk
write_encoded c path temp digest disk (some payload) =
    write_temp c (plan_of path temp digest payload) disk

-- `_write_sync`; the temporary path is the one that the process id and the random number give.
unfoldable pub write_sync : Calls → Services → FilePath → FilePath → String → Disk → Written
write_sync c services path temp text disk =
    let normalized = services.normalize_lyrics_text text in
    let digest = services.hash_normalized_lyrics normalized in
    if not (c.lower (suffix_of path) == ".lrc")
    then value_error "ValueError" disk
    else if c.mkdir_fails
    then os_error disk []
    else if is_some (disk path) && c.is_symlink
    then value_error "ValueError" disk
    else write_encoded c path temp digest disk (c.encode normalized)
