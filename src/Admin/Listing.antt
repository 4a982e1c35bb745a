-- ===== src/Admin/Listing.antt =====
-- What the list queries of the admin panel share: filters, LIKE, pages (app/services/admin.py,
-- app/dependencies/pagination.py, app/common/pagination.py). The order of the rows in
-- a query is the database's, a parameter; case is that of the ASCII letters.
pub mod Search
pub mod Walk
use tools_backend.Base.{
  ℕ, ◌+◌, ◌-◌, ◌*◌, ◌/◌, ◌%◌, min, ap, Bool, true, false, ◌&&◌, ◌||◌, not, Option, none, some, List,
  [], ◌∷◌, ◌++◌, leb, ◌==◌, if◌then◌else◌, length, set, take, drop, keep_if, any, is_empty, ok,
  Text, codes, lower,
}

pub record PaginationParams : Type 0 where
  pub page : ℕ
  pub size : ℕ

abbrev pub offset : PaginationParams → ℕ
offset params = (params.page - 1) * params.size

abbrev pub limit : PaginationParams → ℕ
limit params = params.size

-- The bounds that FastAPI enforces on the query parameters.
abbrev pub pagination_params : ℕ → ℕ → Option PaginationParams
pagination_params page size =
    if leb 1 page && leb 1 size && leb size 100
    then some (record { page = page; size = size })
    else none

pub record PageMeta : Type 0 where
  pub page : ℕ
  pub size : ℕ
  pub total : ℕ
  pub pages : ℕ

abbrev pub pages_of : ℕ → ℕ → ℕ
pages_of total size = if size == 0 then 0 else (total + size - 1) / size

-- The meta data of `Page.create`
unfoldable pub create_meta : ℕ → ℕ → ℕ → PageMeta
create_meta total page size = record {
  page = page;
  size = size;
  total = total;
  pages = pages_of total size;
}

-- `.limit(page.limit).offset(page.offset)`
unfoldable pub page_of {ℓ} : {A : Type ℓ} → PaginationParams → List A → List A
page_of params rows = take (limit params) (drop (offset params) rows)

-- The rest of a pattern is matched at some suffix of the text.
abbrev pub any_suffix : (Text → Bool) → Text → Bool
any_suffix test [] = test []
any_suffix test (c ∷ t) = test (c ∷ t) || any_suffix test t

-- The rest of a pattern is matched behind one character, which the test accepts.
abbrev pub behind : (ℕ → Bool) → (Text → Bool) → Text → Bool
behind accepts test [] = false
behind accepts test (c ∷ t) = accepts c && test t

-- The parts of a LIKE pattern; a pattern that ends in a lone backslash matches nothing.
pub data PatternPart : Type 0 where
  any_text any_character broken : PatternPart
  literal : ℕ → PatternPart

abbrev pub part_of : ℕ → PatternPart
part_of c = if c == b'%' then any_text else if c == b'_' then any_character else literal c

-- The flag says that a backslash has just been read.
unfoldable pub parts_of : Bool → Text → List PatternPart
parts_of true [] = broken ∷ []
parts_of false [] = []
parts_of true (c ∷ p) = literal c ∷ parts_of false p
parts_of false (c ∷ p) =
    let escaped = parts_of true p in
    let rest = parts_of false p in if c == b'\\' then escaped else part_of c ∷ rest

unfoldable pub matches_parts : List PatternPart → Text → Bool
matches_parts [] t = is_empty t
matches_parts (any_text ∷ ps) t = any_suffix (matches_parts ps) t
matches_parts (any_character ∷ ps) t = behind (λ _. true) (matches_parts ps) t
matches_parts (broken ∷ ps) t = false
matches_parts (literal c ∷ ps) t = behind (λ d. c == d) (matches_parts ps) t

-- `column LIKE pattern`
unfoldable pub like : Text → Text → Bool
unfolding parts_of matches_parts
like pattern t = matches_parts (parts_of false pattern) t

-- `func.lower(column).like(f"%{q.lower()}%")`
unfoldable pub column_like : Text → Text → Bool
unfolding like
column_like q column = like (codes "%" ++ lower q ++ codes "%") (lower column)

-- `if value: stmt = stmt.where(...)`: a missing and an empty value filter nothing
abbrev pub when_given : Option Text → (Text → Bool) → Bool
when_given none test = true
when_given (some value) test = if is_empty value then true else test value

-- The rows of one page, and the number of rows on all pages.
unfoldable pub list_rows {ℓ} :
    {A : Type ℓ} → (List A → List A) → PaginationParams → (A → Bool) → List A → List A × ℕ
unfolding page_of
list_rows order page matches rows =
    (page_of page (order (keep_if matches rows)), length (keep_if matches rows))
