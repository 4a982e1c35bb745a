-- ===== src/Admin/Files.antt =====
-- The stored files of the admin panel (`file_stats`, `delete_file` and `purge_expired_files` of
-- app/services/admin.py).
pub mod Purged
use tools_backend.Base.{
  ℕ, ◌-◌, ◌/◌, min, ap, Bool, true, false, ◌&&◌, not, List, [], ◌∷◌, map, ◌==◌, if◌then◌else◌,
  length, keep_if, any, Result, ok, ◌>>=◌, ◌>>◌,
}
use tools_backend.Constants.{FileStatus, FileCategory, file_status_is_active}
use tools_backend.Exceptions.{AppException}
use tools_backend.Jobs.Rows.{StoredFile, find_file}
use tools_backend.Jobs.Repository.{file_is_expired}
use tools_backend.Admin.Rows.{edit_row}
use tools_backend.Admin.Users.{require, count_if}
use tools_backend.Admin.Subscriptions.{sum_by}

abbrev pub file_id_of : StoredFile → ℕ
file_id_of f = f.id

abbrev pub deleted_file : StoredFile → StoredFile
deleted_file f = record f { status = FileStatus.deleted }

-- The row alone: the bytes stay in the storage tree.
unfoldable pub delete_file : List StoredFile → ℕ → Result AppException (List StoredFile)
delete_file files file_id = do
  f ← require (find_file file_id files)
  ok (edit_row file_id_of file_id deleted_file files)

abbrev pub purged_file : ℕ → StoredFile → StoredFile
purged_file now f = if file_is_expired now f then record f { status = FileStatus.expired } else f

-- The rows behind the purge, and how many it marked.
unfoldable pub purge_expired_files : ℕ → List StoredFile → List StoredFile × ℕ
purge_expired_files now files = (map (purged_file now) files, count_if (file_is_expired now) files)

abbrev pub in_category : FileCategory → FileCategory → Bool
in_category FileCategory.upload FileCategory.upload = true
in_category FileCategory.processed FileCategory.processed = true
in_category FileCategory.thumbnail FileCategory.thumbnail = true
in_category _ _ = false

pub record CategoryStats : Type 0 where
  pub count : ℕ
  pub bytes : ℕ

-- A group of the query; a category without an active file has no group.
abbrev pub category_stats : List StoredFile → FileCategory → CategoryStats
category_stats files category =
    let rows =
      keep_if (λ f. file_status_is_active f.status && in_category category f.category) files in
    record { count = length rows; bytes = sum_by (λ f. f.size_bytes) rows }

abbrev pub categories : List FileCategory
categories = FileCategory.upload ∷ FileCategory.processed ∷ FileCategory.thumbnail ∷ []

pub record FileStats : Type 0 where
  pub total_bytes : ℕ
  pub total_count : ℕ
  pub by_category : List CategoryStats

unfoldable pub file_stats : List StoredFile → FileStats
file_stats files =
    let groups = map {A = FileCategory} (category_stats files) categories in
    record {
      total_bytes = sum_by (λ c. c.bytes) groups;
      total_count = sum_by (λ c. c.count) groups;
      by_category = keep_if (λ c. not (c.count == 0)) groups;
    }
