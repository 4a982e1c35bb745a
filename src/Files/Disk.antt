-- ===== src/Files/Disk.antt =====
-- The storage tree (`LocalStorageService` of app/services/storage.py). A disk is a list of files by
-- absolute path. `Path.resolve`, the roots and the digest are parameters; unlinking is taken to succeed.
pub mod Written
use tools_backend.Base.{
  ℕ, suc, ◌+◌, ◌-◌, ◌/◌, max, ap, Bool, true, false, ◌||◌, Option, none, some, List, [], ◌∷◌, ◌++◌,
  ltb, ◌==◌, if◌then◌else◌, length, take, Result, ok, err, raise_if, ◌>>◌, ◌>>=◌, Text, text_eq,
  starts_with,
}
use tools_backend.Constants.{FileCategory}
use tools_backend.Exceptions.{AppException, file_too_large_error, per_file, database_error}

abbrev pub Bytes : Type 0
Bytes = List ℕ

abbrev pub Disk : Type 0
Disk = List (Text × Bytes)

abbrev pub lookup : Text → Disk → Option Bytes
lookup path [] = none
lookup path ((p, content) ∷ disk) =
    let rest = lookup path disk in if text_eq p path then some content else rest

-- `path.unlink(missing_ok=True)`
abbrev pub unlink : Text → Disk → Disk
unlink path [] = []
unlink path ((p, content) ∷ disk) =
    let rest = unlink path disk in if text_eq p path then rest else (p, content) ∷ rest

-- A file opened with "wb", written and closed.
abbrev pub put : Text → Bytes → Disk → Disk
put path content disk = (path, content) ∷ unlink path disk

pub record FileSystem : Type 0 where
  -- `category_root`
  pub root : FileCategory → Text
  -- `Path.resolve`
  pub canonical : Text → Text
  -- `hashlib.sha256(...).hexdigest()`
  pub digest : Bytes → Text

-- `base / relative`: an absolute path takes the place of the base
abbrev pub join : Text → Text → Text
join base [] = base
join base (c ∷ relative) = if c == b'/' then c ∷ relative else base ++ b'/' ∷ c ∷ relative

abbrev pub is_relative_to : Text → Text → Bool
is_relative_to candidate base = text_eq base candidate || starts_with (base ++ b'/' ∷ []) candidate

-- `none` is the StorageError.
unfoldable pub resolve : FileSystem → FileCategory → Text → Option Text
resolve fs category relative_path =
    let candidate = fs.canonical (join (fs.root category) relative_path) in
    if is_relative_to candidate (fs.canonical (fs.root category)) then some candidate else none

abbrev unlinked : Option Text → Disk → Bool × Disk
unlinked none disk = (false, disk)
unlinked (some path) disk = (true, unlink path disk)

-- `delete`
unfoldable pub delete : FileSystem → FileCategory → Text → Disk → Bool × Disk
unfolding resolve
delete fs category relative_path disk = unlinked (resolve fs category relative_path) disk

-- The successive results of `source.read`; `none` is one that raises.
abbrev pub Reads : Type 0
Reads = List (Option Bytes)

-- The loop of `write_stream`: the bytes counted and the content written, or the exception.
unfoldable pub stream : ℕ → ℕ → Bytes → Reads → Result AppException (ℕ × Bytes)
stream max_bytes written content [] = ok (written, content)
stream max_bytes written content (none ∷ reads) = err database_error
stream max_bytes written content (some [] ∷ reads) = ok (written, content)
stream max_bytes written content (some (b ∷ chunk) ∷ reads) = do
  raise_if (ltb max_bytes (written + length (b ∷ chunk))) (file_too_large_error per_file)
  stream max_bytes (written + length (b ∷ chunk)) (content ++ b ∷ chunk) reads

-- The first chunk, if there is one, counts as the first of the loop.
abbrev pub with_first : Bytes → Reads → Reads
with_first [] reads = reads
with_first (b ∷ chunk) reads = some (b ∷ chunk) ∷ reads

abbrev pub closed :
    FileSystem
    → Text
    → Disk
    → Result AppException (ℕ × Bytes)
    → Result AppException (ℕ × Text) × Disk
closed fs destination disk (ok (written, content)) =
    (ok (written, fs.digest content), put destination content disk)
closed fs destination disk (err e) = (err e, unlink destination disk)

-- `write_stream`: the size and the checksum, and the disk behind it; an exception removes the file.
unfoldable pub write_stream :
    FileSystem → Reads → Text → ℕ → Bytes → Disk → Result AppException (ℕ × Text) × Disk
unfolding stream
write_stream fs source destination max_bytes first_chunk disk =
    closed fs destination disk (stream max_bytes 0 [] (with_first first_chunk source))
