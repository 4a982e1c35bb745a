-- ===== src/Admin/Settings/Updated.antt =====
-- Reading a category of settings behind an update (`update_setting` and `get_setting` of
-- app/services/admin.py).
use tools_backend.Base.{
  ℕ, ◌≡◌, refl, sym, ap, ◌∙◌, inl, inr, true, false, Option, none, some, List, [], ◌∷◌, arith,
  Bool-cases, Option-cases, Result, ok, err, Text, text_eq, text_eq_refl, text_eq→eq,
}
use tools_backend.Json.{Json, Fields, empty}
use tools_backend.Exceptions.{AppException}
use tools_backend.Admin.Settings.{
  AppSetting, deep_merge, find_setting, put_setting, get_setting, update_setting, row_or_new,
  setting_value,
}
use tools_backend.Admin.Settings.Merged.{
  at, IsLeaf, Misses, IsNested, AreNested, at-merge_value_written, at-merge_value_missed,
}

-- The stored value of a category; a category without a row is an empty dict.
abbrev pub stored_value : Result AppException Fields → Fields
stored_value (ok value) = value
stored_value (err _) = empty

text_eq_sym : (s t : Text) → text_eq s t ≡ text_eq t s
text_eq_sym [] [] = refl
text_eq_sym [] (_ ∷ _) = refl
text_eq_sym (_ ∷ _) [] = refl
text_eq_sym (a ∷ s) (b ∷ t) = ground (arith, text_eq_sym s t)

find_setting-put_setting :
    (s : AppSetting) (rows : List AppSetting) → find_setting s.key (put_setting s rows) ≡ some s
find_setting-put_setting s [] = rw (text_eq_refl s.key)
find_setting-put_setting s (r ∷ rows) = elim (Bool-cases (text_eq r.key s.key)) [
  | inl e ↦ rw (e, text_eq_refl s.key)
  | inr e ↦ rw (e, e, find_setting-put_setting s rows)
]

find_setting-put_setting_ne :
    (s : AppSetting) (rows : List AppSetting) (key : Text)
    → text_eq s.key key ≡ false
    → find_setting key (put_setting s rows) ≡ find_setting key rows
find_setting-put_setting_ne s [] key h = rw h
find_setting-put_setting_ne s (r ∷ rows) key h = elim (Bool-cases (text_eq r.key s.key)) [
  | inl e ↦ rw (e, text_eq→eq r.key s.key e, h)
  | inr e ↦ rw (e, find_setting-put_setting_ne s rows key h)
]

find_setting-key :
    (key : Text) (rows : List AppSetting) (r : AppSetting)
    → find_setting key rows ≡ some r
    → text_eq r.key key ≡ true
find_setting-key key [] r h = cc
find_setting-key key (s ∷ rows) r h = ground (arith, find_setting-key key rows r)

get_setting-put_setting :
    (s : AppSetting) (rows : List AppSetting) (category : Text)
    → s.key ≡ category
    → get_setting (put_setting s rows) category ≡ ok s.value
get_setting-put_setting s rows category same = rw (sym same, find_setting-put_setting s rows) refl

row_or_new-key :
    (category : Text) (rows : List AppSetting)
    → (row_or_new (find_setting category rows) category).key ≡ category
row_or_new-key category rows = elim (Option-cases (find_setting category rows)) [
  | inl e ↦ rw (e) refl
  | inr (r, e) ↦ rw (e) (text_eq→eq r.key category (find_setting-key category rows r e))
]

row_or_new-value :
    (o : Option AppSetting) (category : Text)
    → (row_or_new o category).value ≡ stored_value (setting_value o)
row_or_new-value none category = refl
row_or_new-value (some r) category = refl

-- Of a merge of the written value into the stored one: a leaf that is written stands at its path, and
-- a path at which nothing is written, at any depth, reads as before.
abbrev pub MergesInto : Fields → Fields → Fields → Type 0
MergesInto stored written merged =
    ((path : List Text) (leaf : Json)
      → IsLeaf leaf
      → at path (Json.object written) ≡ some leaf
      → at path (Json.object merged) ≡ some leaf)
    × ((path : List Text)
        → Misses path (Json.object written)
        → at path (Json.object merged) ≡ at path (Json.object stored))

deep_merge-MergesInto :
    (stored written : Fields)
    → AreNested written
    → MergesInto stored written (deep_merge stored written)
unfolding IsNested deep_merge
deep_merge-MergesInto stored written nested = (
  λ path leaf is_leaf e.
      at-merge_value_written path (some (Json.object stored)) (Json.object written) leaf nested
        is_leaf e,
  λ path misses.
      at-merge_value_missed path (some (Json.object stored)) (Json.object written) nested misses,
)

-- Behind an update of a category, reading it gives the merged value that the update returned: it has
-- every leaf that was written, at its path of keys, and at every path at which nothing was written,
-- however deep, what was stored there before. Every other category reads as before. The keys of each
-- dict in the written value are different.
pub update_setting-get_setting :
    (rows : List AppSetting) (category : Text) (value : Fields) (actor : Option ℕ) (other : Text)
    → AreNested value
    → text_eq category other ≡ false
    → (get_setting (update_setting rows category value actor).0 category
        ≡ ok (update_setting rows category value actor).1)
      × MergesInto
          (stored_value (get_setting rows category))
          value
          (update_setting rows category value actor).1
      × (get_setting (update_setting rows category value actor).0 other ≡ get_setting rows other)
unfolding update_setting
update_setting-get_setting rows category value actor other nested differs =
    let old = row_or_new (find_setting category rows) category in
    let same = row_or_new-key category rows in
    (
      get_setting-put_setting
          (record old { value = deep_merge old.value value; updated_by = actor }) rows category
          same,
      rw (← row_or_new-value (find_setting category rows) category)
          (deep_merge-MergesInto old.value value nested),
      ap setting_value (
          find_setting-put_setting_ne
            (record old { value = deep_merge old.value value; updated_by = actor }) rows other
            (ap (λ k. text_eq k other) same ∙ differs)),
    )
