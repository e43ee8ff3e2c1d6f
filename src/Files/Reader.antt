-- ===== src/Files/Reader.antt =====
-- `read` of apps/bridge/src/files/reader.ts. The disk and the decoder of texts are parameters.
pub mod Listing
pub mod Diff
pub mod Laws
use kanhrd.Base.{
  ℕ, suc, ◌+◌, String, Bool, true, false, ◌||◌, Option, none, some, List, [], ◌∷◌, if◌then◌else◌,
  ltb, ◌==◌, any, take, length, min,
}
use kanhrd.Files.Confine.{
  Paths, ConfinedPath, Confined, confined, outside, unfinished, confine_path,
}

-- What `stat` finds: a file with its size and time, a directory, or something else.
pub data Node : Type 0 where
  file : ℕ → ℕ → Node
  directory : Node
  other : ℕ → Node

-- `stat`, `handle.read` of at most so many bytes, and a fatal UTF-8 `TextDecoder`; none if they throw.
pub record Disk : Type 0 where
  pub paths : Paths
  pub stat : String → Option Node
  pub read_bytes : String → ℕ → Option (List ℕ)
  pub decode : List ℕ → Option String

-- `RepoFileError`, and what the platform throws.
pub data FileError : Type 0 where
  path_outside_checkout : FileError
  not_found : FileError
  not_a_file : FileError
  not_a_directory : FileError
  file_too_large : FileError
  io_error : FileError
  walk_unfinished : FileError

-- `FileReadResult`
pub data FileContent : Type 0 where
  binary : String → ℕ → ℕ → FileContent
  text : String → ℕ → ℕ → String → FileContent

pub data ReadOutcome : Type 0 where
  content : FileContent → ReadOutcome
  failed : FileError → ReadOutcome

abbrev pub binary_sniff_bytes : ℕ
binary_sniff_bytes = 8000

abbrev pub is_binary : List ℕ → Bool
is_binary bytes = any (λ b. b == 0) (take binary_sniff_bytes bytes)

abbrev pub decoded : String → ℕ → ℕ → List ℕ → Option String → ReadOutcome
decoded rel size mtime bytes none = content (binary rel size mtime)
decoded rel size mtime bytes (some t) = content (text rel (length bytes) mtime t)

abbrev pub with_bytes : Disk → ℕ → String → ℕ → ℕ → Option (List ℕ) → ReadOutcome
with_bytes disk limit rel size mtime none = failed io_error
with_bytes disk limit rel size mtime (some bytes) =
    if ltb limit (length bytes)
    then failed file_too_large
    else if is_binary bytes
    then content (binary rel size mtime)
    else decoded rel size mtime bytes (disk.decode bytes)

abbrev pub with_node : Disk → ℕ → String → String → Option Node → ReadOutcome
with_node disk limit rel real none = failed io_error
with_node disk limit rel real (some directory) = failed not_a_file
with_node disk limit rel real (some (other size)) = failed not_a_file
with_node disk limit rel real (some (file size mtime)) =
    if ltb limit size
    then failed file_too_large
    else with_bytes disk limit rel size mtime (disk.read_bytes real (suc (min size limit)))

abbrev pub read_real : Disk → ℕ → String → Option String → ReadOutcome
read_real disk limit rel none = failed not_found
read_real disk limit rel (some real) = with_node disk limit rel real (disk.stat real)

abbrev pub read_confined : Disk → ℕ → Confined → ReadOutcome
read_confined disk limit (confined c) = read_real disk limit c.rel c.real
read_confined disk limit outside = failed path_outside_checkout
read_confined disk limit unfinished = failed walk_unfinished

-- `limit` is `fileReadMaxBytes`.
unfoldable pub read : Disk → ℕ → ℕ → String → String → ReadOutcome
read disk fuel limit root path = read_confined disk limit (confine_path disk.paths fuel root path)
