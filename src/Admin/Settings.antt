-- ===== src/Admin/Settings.antt =====
-- The settings pages (`all_settings`, `get_setting`, `_deep_merge` and `update_setting` of
-- app/services/admin.py, `AppSetting` of app/models/admin.py).
pub mod Merged
pub mod Updated
use tools_backend.Base.{
  ℕ, ◌-◌, ◌/◌, min, ap, not, Option, none, some, List, [], ◌∷◌, if◌then◌else◌, set, any, Result, ok,
  err, Text, text_eq,
}
use tools_backend.Json
use tools_backend.Json.{Json, Fields, empty, field, lookup, store}
use tools_backend.Exceptions.{AppException}

pub record AppSetting : Type 0 where
  pub key : Text
  pub value : Fields
  pub category : Text
  pub updated_by : Option ℕ

unfoldable mutual
  -- `_deep_merge(base, overrides)`
  pub deep_merge : Fields → Fields → Fields
  deep_merge base empty = base
  deep_merge base (field key val overrides) =
      deep_merge (store key (merge_value (lookup key base) val) base) overrides

  -- What the entry becomes: two dicts are merged, anything else is replaced.
  pub merge_value : Option Json → Json → Json
  merge_value (some (Json.object old)) (Json.object new) = Json.object (deep_merge old new)
  merge_value _ val = val

-- `{r.key: r.value for r in rows}`; the column of the keys is unique, so no entry is written twice
unfoldable pub all_settings : List AppSetting → Fields
all_settings [] = empty
all_settings (r ∷ rows) = field r.key (Json.object r.value) (all_settings rows)

abbrev pub find_setting : Text → List AppSetting → Option AppSetting
find_setting key [] = none
find_setting key (r ∷ rows) =
    let rest = find_setting key rows in if text_eq r.key key then some r else rest

abbrev pub setting_value : Option AppSetting → Result AppException Fields
setting_value none = err AppException.not_found_error
setting_value (some r) = ok r.value

-- `get_setting`
abbrev pub get_setting : List AppSetting → Text → Result AppException Fields
get_setting rows category = setting_value (find_setting category rows)

-- A category without a row gets one, with an empty value.
abbrev pub row_or_new : Option AppSetting → Text → AppSetting
row_or_new none category = record {
  key = category;
  value = empty;
  category = category;
  updated_by = none;
}
row_or_new (some r) category = r

abbrev pub put_setting : AppSetting → List AppSetting → List AppSetting
put_setting s [] = s ∷ []
put_setting s (r ∷ rows) =
    let rest = put_setting s rows in if text_eq r.key s.key then s ∷ rows else r ∷ rest

-- `update_setting`: the table behind it, and the merged value
unfoldable pub update_setting :
    List AppSetting → Text → Fields → Option ℕ → List AppSetting × Fields
unfolding deep_merge
update_setting rows category value actor =
    let row = row_or_new (find_setting category rows) category in
    let merged = deep_merge row.value value in
    (put_setting (record row { value = merged; updated_by = actor }) rows, merged)
