-- ===== src/Files/Download/Served.antt =====
-- What a download serves (`get_downloadable`, `build_job_response` of app/services/download.py).
use tools_backend.Base.{
  ℕ, ◌≡◌, refl, inl, inr, true, false, not, Option, none, some, arith, Bool-cases, ok, >>=-eq-ok,
  raise_if-eq-ok, Text,
}
use tools_backend.Constants.{FileStatus}
use tools_backend.Jobs.Rows.{StoredFile, Db}
use tools_backend.Jobs.Repository.{get_active, is_past}
use tools_backend.Jobs.Creation.Accepted.{get_active-some}
use tools_backend.Files.Disk.{Bytes, Disk, FileSystem, lookup, resolve, is_relative_to, join}
use tools_backend.Files.Download.{get_downloadable, found_or_missing, resolved, is_file, is_there}

-- A file that may be handed out, at its path.
pub record IsServable (fs : FileSystem) (now : ℕ) (disk : Disk) (file_id : ℕ) (user_id : Option ℕ)
    (f : StoredFile) (path : Text) : Type 0 where
  pub requested : f.id ≡ file_id
  pub active : f.status ≡ FileStatus.active
  pub owned : f.user_id ≡ user_id
  pub current : is_past f.expires_at now ≡ false
  pub inside : is_relative_to path (fs.canonical (fs.root f.category)) ≡ true
  pub on_disk : (content : Bytes) × (lookup path disk ≡ some content)

found-ok : (o : Option StoredFile) (f : StoredFile) → found_or_missing o ≡ ok f → o ≡ some f
found-ok none f h = cc
found-ok (some g) f h = ground arith

resolved-ok : (o : Option Text) (path : Text) → resolved o ≡ ok path → o ≡ some path
resolved-ok none path h = cc
resolved-ok (some p) path h = ground arith

there-ok : (o : Option Bytes) → not (is_there o) ≡ false → (content : Bytes) × (o ≡ some content)
there-ok none h = cc
there-ok (some content) h = (content, refl)

pub resolve-inside :
    (fs : FileSystem) (f : StoredFile) (path : Text)
    → resolve fs f.category f.relative_path ≡ some path
    → is_relative_to path (fs.canonical (fs.root f.category)) ≡ true
unfolding resolve
resolve-inside fs f path h =
    let candidate = fs.canonical (join (fs.root f.category) f.relative_path) in
    elim (Bool-cases (is_relative_to candidate (fs.canonical (fs.root f.category)))) [
      | inl inside ↦ let e : candidate ≡ path = (let h' = rw inside at h in cc) in rw (← e) inside
      | inr outside ↦ let h' = rw outside at h in cc
    ]

-- A file that is handed out is the requested one; it is ACTIVE, owned by the caller and not past its
-- expiry, its path lies inside the storage tree, and its bytes are there.
pub get_downloadable-IsServable :
    (fs : FileSystem) (now : ℕ) (db : Db) (disk : Disk) (file_id : ℕ) (user_id : Option ℕ)
    (f : StoredFile) (path : Text)
    → get_downloadable fs now db disk file_id user_id ≡ ok (f, path)
    → IsServable fs now disk file_id user_id f path
unfolding get_downloadable
get_downloadable-IsServable fs now db disk file_id user_id f path h =
    let (g, found, rest) = >>=-eq-ok (found_or_missing (get_active db.files file_id user_id)) _ h in
    let (current, rest') = raise_if-eq-ok (is_past g.expires_at now) _ _ rest in
    let (p, at_path, rest'') =
      >>=-eq-ok (resolved (resolve fs g.category g.relative_path)) _ rest' in
    let (there, same) = raise_if-eq-ok (not (is_file p disk)) _ _ rest'' in
    let e : g ≡ f = cc in
    let e' : p ≡ path = cc in
    let (is_id, active, owned) =
      get_active-some db.files file_id user_id g
        (found-ok (get_active db.files file_id user_id) g found) in
    rw (← e, ← e')
      (record {
        requested = is_id;
        active = active;
        owned = owned;
        current = current;
        inside =
            resolve-inside fs g p (resolved-ok (resolve fs g.category g.relative_path) p at_path);
        on_disk = there-ok (lookup p disk) there;
      })
