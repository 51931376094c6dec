-- ===== src/Scanner.antt =====
-- src/versarr/infrastructure/filesystem/scanner.py, and the events of watcher.py. `str.lower`, `fnmatch`
-- and the answers of the file system are given.
use Prim.Native.String.{◌++◌ as str_append}
use versarr.Base.{
  Bool, FilePath, List, Option, String, [], any, if◌then◌else◌, member, nat_eq, none, not, path_eq,
  some, string_eq, ◌==◌, ◌∷◌,
}

-- `str.lower` and `fnmatch(name, pattern)`.
pub record Matching : Type 0 where
  pub lower : String → String
  pub fnmatch : String → String → Bool

-- `SUPPORTED_MEDIA_EXTENSIONS`, in the order of the source; the code goes through a set, in some order.
abbrev pub supported_media_extensions : List String
supported_media_extensions = ".flac" ∷ ".mp3" ∷ ".m4a" ∷ ".mp4" ∷ ".ogg" ∷ ".opus" ∷ []

-- `path.name` and `path.suffix`; both are empty for a root.
abbrev pub name_of : FilePath → String
name_of [] = ""
name_of (n ∷ p) = str_append n.stem n.suffix

abbrev pub suffix_of : FilePath → String
suffix_of [] = ""
suffix_of (n ∷ p) = n.suffix

-- `path.with_suffix(ext)`, of a path with a name.
abbrev pub with_suffix : String → FilePath → FilePath
with_suffix ext [] = []
with_suffix ext (n ∷ p) = record n { suffix = ext } ∷ p

unfoldable pub is_ignored_temp_file : Matching → FilePath → List String → Bool
is_ignored_temp_file m path patterns =
    any (λ pattern. m.fnmatch (m.lower (name_of path)) (m.lower pattern)) patterns

abbrev pub is_supported : Matching → FilePath → Bool
is_supported m path = member (m.lower (suffix_of path)) supported_media_extensions

-- The loop over the extensions, in their order: the first sibling that exists.
unfoldable pub first_sibling : (FilePath → Bool) → List String → FilePath → Option FilePath
first_sibling exists [] path = none
first_sibling exists (ext ∷ t) path =
    if exists (with_suffix ext path)
    then some (with_suffix ext path)
    else first_sibling exists t path

unfoldable pub resolve_candidate_media_path :
    Matching → (FilePath → Bool) → FilePath → Option FilePath
resolve_candidate_media_path m exists path =
    if is_supported m path
    then some path
    else if not (m.lower (suffix_of path) == ".lrc")
    then none
    else first_sibling exists supported_media_extensions path

-- `_scan_sync`, on what `rglob` lists.
unfoldable pub scan_listing : Matching → (FilePath → Bool) → List FilePath → List FilePath
scan_listing m is_file [] = []
scan_listing m is_file (path ∷ t) =
    let rest = scan_listing m is_file t in
    if not (is_file path) then rest else if is_supported m path then path ∷ rest else rest

-- An event of the observer: its kind, its two paths, and whether it is about a directory.
pub data EventKind : Type 0 where
  created modified moved : EventKind

pub record WatchEvent : Type 0 where
  pub kind : EventKind
  pub is_directory : Bool
  pub src_path : FilePath
  pub dest_path : FilePath

abbrev path_by_kind : EventKind → WatchEvent → FilePath
path_by_kind EventKind.moved e = e.dest_path
path_by_kind _ e = e.src_path

-- `_EventHandler`: the path that the callback is given.
unfoldable pub scheduled_path : WatchEvent → Option FilePath
scheduled_path e = if e.is_directory then none else some (path_by_kind e.kind e)
