-- ===== src/Watermark/Objects.antt =====
-- The objects of a document as pypdf hands them out, and the helpers on them
-- (app/utils/pdf_security.py).
use tools_backend.Base.{
  ℕ, Bool, false, ◌||◌, not, Option, none, some, List, [], ◌∷◌, ◌++◌, map, if◌then◌else◌, keep_if,
  any, Text, codes, text_eq, contains, is_space, lower,
}

-- A PDF object: texts stand for names and strings. A stream has its identity with it.
mutual
  pub data Object (F : Type 0) : Type 0 where
    name : Text → Object F
    string : Text → Object F
    bytes : List ℕ → Object F
    number : F → Object F
    array : Objects F → Object F
    dictionary : Entries F → Object F
    stream : ℕ → Entries F → Object F
    reference : ℕ → Object F

  pub data Objects (F : Type 0) : Type 0 where
    none_left : Objects F
    item : Object F → Objects F → Objects F

  pub data Entries (F : Type 0) : Type 0 where
    no_entry : Entries F
    entry : Text → Object F → Entries F → Entries F

pub data Operator : Type 0 where
  save_state restore_state concat_matrix graphics_state begin_text end_text : Operator
  text_matrix text_font begin_marked begin_marked_properties end_marked : Operator
  show_text draw_object inline_image other_operator : Operator

-- `(operands, operator)`; the operators Tj, TJ, ' and " show text.
pub record Operation (F : Type 0) : Type 0 where
  pub operands : Objects F
  pub operator : Operator

abbrev pub find_entry : {F : Type 0} → Text → Entries F → Option (Object F)
find_entry key no_entry = none
find_entry key (entry label value entries) =
    let rest = find_entry key entries in if text_eq label key then some value else rest

abbrev pub objects_of : {F : Type 0} → Objects F → List (Object F)
objects_of none_left = []
objects_of (item x xs) = x ∷ objects_of xs

-- A document's objects: an indirect object by its number, and how `str` shows what is no text
pub record Store (F : Type 0) : Type 0 where
  pub object_at : ℕ → Object F
  pub shown : Object F → Text

module _ {F : Type 0} (store : Store F) where
  -- `_deref`
  abbrev pub deref : Object F → Object F
  deref (reference n) = store.object_at n
  deref x = x

  abbrev pub deref_option : Option (Object F) → Option (Object F)
  deref_option none = none
  deref_option (some x) = some (deref x)

  -- `str(value)`
  abbrev pub str_of : Object F → Text
  str_of (name t) = t
  str_of (string t) = t
  str_of x = store.shown x

  -- `str(entries.get(key, ""))`
  abbrev pub str_option : Option (Object F) → Text
  str_option none = []
  str_option (some x) = str_of x

  -- The entries of a dictionary or of a stream
  abbrev pub entries_of : Object F → Entries F
  entries_of (dictionary entries) = entries
  entries_of (stream id entries) = entries
  entries_of x = no_entry

  abbrev pub get : Text → Object F → Option (Object F)
  get key x = find_entry key (entries_of x)

  abbrev pub str_at : Text → Object F → Text
  str_at key x = str_option (get key x)

  abbrev pub has_watermark : Text → Bool
  has_watermark t = contains (codes "watermark") (lower t)

  -- `_looks_like_watermark`
  unfoldable pub looks_like_watermark : Object F → Bool
  unfolding contains
  looks_like_watermark annotation =
      text_eq (str_at (codes "/Subtype") annotation) (codes "/Watermark")
      || has_watermark (
          str_at (codes "/NM") annotation
          ++ 32 ∷ (str_at (codes "/T") annotation ++ 32 ∷ str_at (codes "/Contents") annotation))

  abbrev pub named_properties : Object F → Option (Object F) → Option (Object F)
  named_properties operand none = none
  named_properties operand (some properties) = deref_option (get (str_of operand) properties)

  abbrev pub properties_in : Object F → Option (Object F) → Option (Object F)
  properties_in (dictionary entries) resources = some (dictionary entries)
  properties_in (stream id entries) resources = some (stream id entries)
  properties_in operand none = none
  properties_in operand (some resources) =
      named_properties operand (deref_option (get (codes "/Properties") resources))

  -- `_resolve_properties`
  unfoldable pub resolve_properties : Object F → Option (Object F) → Option (Object F)
  resolve_properties operand resources = properties_in (deref operand) resources

  abbrev pub groups_in : Option (Object F) → List (Object F)
  groups_in none = []
  groups_in (some (dictionary entries)) = dictionary entries ∷ []
  groups_in (some (stream id entries)) = stream id entries ∷ []
  groups_in (some (array xs)) = map deref (objects_of xs)
  groups_in (some x) = []

  abbrev pub groups_of : Object F → List (Object F)
  groups_of properties =
      if text_eq (str_at (codes "/Type") properties) (codes "/OCMD")
      then groups_in (deref_option (get (codes "/OCGs") properties))
      else properties ∷ []

  -- `_member_ocgs`
  unfoldable pub member_ocgs : Option (Object F) → List (Object F)
  member_ocgs none = []
  member_ocgs (some properties) = groups_of (deref properties)

  -- `_is_watermark_oc`
  unfoldable pub is_watermark_oc : Option (Object F) → Bool
  unfolding member_ocgs contains
  is_watermark_oc properties =
      any (λ group. has_watermark (str_at (codes "/Name") group)) (member_ocgs properties)

  -- `_is_watermark_artifact`
  unfoldable pub is_watermark_artifact : Option (Object F) → Bool
  unfolding contains
  is_watermark_artifact none = false
  is_watermark_artifact (some properties) =
      text_eq (str_at (codes "/Subtype") properties) (codes "/Watermark")
      || has_watermark (str_at (codes "/Name") properties)

  -- A resource of a category, by the first operand
  abbrev pub resource_in : Objects F → Option (Object F) → Option (Object F)
  resource_in none_left category = none
  resource_in (item x xs) none = none
  resource_in (item x xs) (some category) = deref_option (get (str_of x) category)

  abbrev pub resource_named : Text → Objects F → Option (Object F) → Option (Object F)
  resource_named category operands none = none
  resource_named category operands (some resources) =
      resource_in operands (deref_option (get category resources))

  -- `_xobject_named`
  unfoldable pub xobject_named : Objects F → Option (Object F) → Option (Object F)
  xobject_named operands resources = resource_named (codes "/XObject") operands resources

  -- `_operand_text`; bytes are read as Latin-1
  abbrev pub text_in : Object F → Text
  text_in (name t) = t
  text_in (string t) = t
  text_in (bytes t) = t
  text_in x = []

  abbrev pub texts_in : Objects F → Text
  texts_in none_left = []
  texts_in (item x xs) = text_in x ++ texts_in xs

  unfoldable pub operand_text : Objects F → Text
  operand_text none_left = []
  operand_text (item (array xs) operands) = texts_in xs ++ operand_text operands
  operand_text (item x operands) = text_in x ++ operand_text operands

-- `_normalise`
unfoldable pub normalise : Text → Text
normalise text = lower (keep_if (λ c. not (is_space c)) text)
