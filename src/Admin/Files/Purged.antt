-- ===== src/Admin/Files/Purged.antt =====
-- The administrator's purge and the periodic cleanup (`purge_expired_files` and `file_stats` of
-- app/services/admin.py, `expire_files` of app/tasks/cleanup.py).
use tools_backend.Base.{
  ℕ, ◌<◌, ◌≡◌, refl, ◌⊎◌, inl, inr, true, false, Option, none, some, List, [], ◌∷◌, arith, ltb→lt,
  Bool-cases, and_parts,
}
use tools_backend.Jobs.Rows.{StoredFile}
use tools_backend.Constants.{FileStatus, file_status_is_active}
use tools_backend.Jobs.Repository.{is_past, file_is_expired}
use tools_backend.Files.Disk.{Disk, FileSystem}
use tools_backend.Files.Cleanup.{expire_files}
use tools_backend.Admin.Files.{purged_file, purge_expired_files}

purged_file-not_expired :
    (now : ℕ) (f : StoredFile) → file_is_expired now (purged_file now f) ≡ false
purged_file-not_expired now f = elim (Bool-cases (file_is_expired now f)) [
  | inl past ↦ rw past refl
  | inr current ↦ rw (current, current) refl
]

-- The row is due: ACTIVE, with an expiry that lies in the past.
abbrev pub IsDue : ℕ → StoredFile → Type 0
IsDue now f =
    (file_status_is_active f.status ≡ true) × (t : ℕ) × (f.expires_at ≡ some t) × (t < now)

-- What the purge does to a row: if it is due, its status becomes EXPIRED, else nothing.
abbrev pub IsMarked : ℕ → StoredFile → StoredFile → Type 0
IsMarked now f g =
    (IsDue now f × (g ≡ record f { status = FileStatus.expired })) ⊎ ((IsDue now f → ⊥) × (g ≡ f))

abbrev pub AreMarked : ℕ → List StoredFile → List StoredFile → Type 0
AreMarked now [] [] = Unit
AreMarked now [] (g ∷ gs) = ⊥
AreMarked now (f ∷ fs) [] = ⊥
AreMarked now (f ∷ fs) (g ∷ gs) = IsMarked now f g × AreMarked now fs gs

is_past-some : (o : Option ℕ) (now : ℕ) → is_past o now ≡ true → (t : ℕ) × (o ≡ some t) × (t < now)
is_past-some none now h = cc
is_past-some (some t) now h = (t, refl, ltb→lt t now h)

file_is_expired-IsDue : (now : ℕ) (f : StoredFile) → file_is_expired now f ≡ true → IsDue now f
file_is_expired-IsDue now f h =
    let (is_active, past) =
      and_parts (file_status_is_active f.status) (is_past f.expires_at now) h in
    let (t, expiry, lt) = is_past-some f.expires_at now past in (is_active, t, expiry, lt)

IsDue-file_is_expired : (now : ℕ) (f : StoredFile) → IsDue now f → file_is_expired now f ≡ true
IsDue-file_is_expired now f (is_active, t, expiry, past) = rw (is_active, expiry) (ground arith)

purged_file-IsMarked : (now : ℕ) (f : StoredFile) → IsMarked now f (purged_file now f)
purged_file-IsMarked now f = elim (Bool-cases (file_is_expired now f)) [
  | inl past ↦ rw past (inl (file_is_expired-IsDue now f past, refl))
  | inr current ↦ rw current (inr ((λ due. let past = IsDue-file_is_expired now f due in cc), refl))
]

-- The administrator's purge marks exactly the due rows EXPIRED and leaves every other row as it is.
-- A cleanup at the same time then deletes no bytes and marks no row: the bytes of every file that was
-- due stay on the disk.
pub purge_expired_files-expire_files :
    (fs : FileSystem) (now : ℕ) (files : List StoredFile) (disk : Disk)
    → AreMarked now files (purge_expired_files now files).0
      × (expire_files fs now (purge_expired_files now files).0 disk
          ≡ ((purge_expired_files now files).0, disk, 0))
unfolding purge_expired_files expire_files
purge_expired_files-expire_files fs now [] disk = (tt, refl)
purge_expired_files-expire_files fs now (f ∷ files) disk =
    let (marked, same) = purge_expired_files-expire_files fs now files disk in
    ((purged_file-IsMarked now f, marked), rw (purged_file-not_expired now f, same) refl)
