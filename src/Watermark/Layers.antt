-- ===== src/Watermark/Layers.antt =====
-- Watermarks that are marked as such: annotations and optional-content groups
-- (`_strip_watermark_annotations` and `_disable_watermark_layers` of app/utils/pdf_security.py).
use tools_backend.Base.{
  ℕ, suc, ◌+◌, Bool, true, false, Option, none, some, List, [], ◌∷◌, ◌++◌, ◌==◌, if◌then◌else◌,
  keep_if, codes, contains,
}
use tools_backend.Watermark.Objects.{Store, str_at, has_watermark, looks_like_watermark}

-- References are compared by the numbers of their objects.
abbrev pub is_listed : ℕ → List ℕ → Bool
is_listed n [] = false
is_listed n (m ∷ ms) = let rest = is_listed n ms in if n == m then true else rest

-- The default configuration of the viewer: the groups that are off, and those that are on
pub record Config : Type 0 where
  pub off : List ℕ
  pub on : Option (List ℕ)

-- `on_list.remove(reference)`: the first occurrence
abbrev pub remove_first : ℕ → List ℕ → List ℕ
remove_first n [] = []
remove_first n (m ∷ ms) = let rest = remove_first n ms in if n == m then ms else m ∷ rest

abbrev pub switch_off : List ℕ → List ℕ → List ℕ × ℕ
switch_off [] off = (off, 0)
switch_off (n ∷ ns) off =
    let listed = switch_off ns off in
    let added = switch_off ns (off ++ n ∷ []) in
    if is_listed n off then listed else (added.0, suc added.1)

abbrev pub switch_on_off : List ℕ → List ℕ → List ℕ
switch_on_off [] on = on
switch_on_off (n ∷ ns) on = switch_on_off ns (if is_listed n on then remove_first n on else on)

abbrev pub option_on : List ℕ → Option (List ℕ) → Option (List ℕ)
option_on marked none = none
option_on marked (some on) = some (switch_on_off marked on)

module _ {F : Type 0} (store : Store F) where
  -- The annotations of a page that stay, and how many go
  unfoldable pub strip_annotations : List ℕ → List ℕ × ℕ
  unfolding looks_like_watermark
  strip_annotations [] = ([], 0)
  strip_annotations (n ∷ ns) =
      let (kept, removed) = strip_annotations ns in
      if looks_like_watermark store (store.object_at n)
      then (kept, suc removed)
      else (n ∷ kept, removed)

  -- The annotations of all pages
  unfoldable pub strip_watermark_annotations : List (List ℕ) → List (List ℕ) × ℕ
  unfolding strip_annotations
  strip_watermark_annotations [] = ([], 0)
  strip_watermark_annotations (page ∷ pages) =
      let (kept, removed) = strip_annotations page in
      let (rest, more) = strip_watermark_annotations pages in (kept ∷ rest, removed + more)

  abbrev pub is_watermark_group : ℕ → Bool
  is_watermark_group n = has_watermark store (str_at store (codes "/Name") (store.object_at n))

  abbrev pub marked_groups : List ℕ → List ℕ
  marked_groups groups = keep_if is_watermark_group groups

  abbrev pub with_off : List ℕ → Config → List ℕ × ℕ → Config × ℕ
  with_off marked config (off, removed) =
      (record { off = off; on = option_on marked config.on }, removed)

  -- `none` is a document without groups or without a configuration.
  unfoldable pub disable_watermark_layers : Option (List ℕ × Config) → Option (List ℕ × Config) × ℕ
  unfolding contains
  disable_watermark_layers none = (none, 0)
  disable_watermark_layers (some (groups, config)) =
      let (config', removed) =
        with_off (marked_groups groups) config (switch_off (marked_groups groups) config.off) in
      (some (groups, config'), removed)
