-- ===== src/Admin/Content.antt =====
-- The managed content: announcements, questions, blog posts and pages (the `create_`, `update_` and
-- `delete_` methods of app/services/admin.py, `_slugify`). The column `slug` of posts and pages is
-- unique.
pub mod Published
pub mod Slug
use tools_backend.Base.{
  ℕ, ◌+◌, ◌-◌, ◌/◌, ◌^◌, min, ap, Bool, true, false, ◌&&◌, ◌||◌, not, Option, none, some, List, [],
  ◌∷◌, ◌++◌, leb, ◌==◌, if◌then◌else◌, take, any, is_empty, Result, ok, err, ◌>>◌, raise_if, Text,
  codes, text_eq, is_space, is_digit, strip_by, lower, ◌>>=◌,
}
use tools_backend.Exceptions.{AppException}
use tools_backend.Admin.Rows.{
  User, Announcement, Faq, BlogPost, ContentPage, find_row, edit_row, delete_row,
}
use tools_backend.Admin.Users.{require}

-- `[a-z0-9]`
abbrev pub is_slug_character : ℕ → Bool
is_slug_character c = (leb 97 c && leb c 122) || is_digit c

-- `re.sub(r"[^a-z0-9]+", "-", text)`; the flag says that a run of other characters is under way.
unfoldable pub dashed : Bool → Text → Text
dashed in_run [] = []
dashed in_run (c ∷ t) =
    let inside = dashed true t in
    let rest = dashed false t in
    if is_slug_character c then c ∷ rest else if in_run then inside else b'-' ∷ inside

-- `slug or uuid.uuid4().hex[:8]`, the second given
abbrev pub slug_or : Text → Text → Text
slug_or [] fresh = fresh
slug_or (c ∷ t) fresh = c ∷ t

-- `_slugify`
unfoldable pub slugify : Text → Text → Text
unfolding dashed
slugify fresh value =
    slug_or (strip_by (λ c. c == b'-') (dashed false (lower (strip_by is_space value)))) fresh

abbrev pub published : Text
published = codes "published"

abbrev pub author_id_of : Option User → Option ℕ
author_id_of none = none
author_id_of (some u) = some u.id

-- `datetime.now(UTC) if payload.status == PUBLISHED else None`
abbrev pub publication : Text → ℕ → Option ℕ
publication status now = if text_eq status published then some now else none

-- The time of publication changes when the status turns to PUBLISHED.
abbrev pub republication : Text → Text → ℕ → Option ℕ → Option ℕ
republication old new now time =
    if text_eq new published && not (text_eq old published) then some now else time

pub record AnnouncementPayload : Type 0 where
  pub title : Text
  pub body : Text
  pub status : Text
  pub audience : Text

abbrev pub announcement_id_of : Announcement → ℕ
announcement_id_of a = a.id

unfoldable pub create_announcement :
    ℕ → ℕ → AnnouncementPayload → Option User → List Announcement → List Announcement
create_announcement now id payload author rows =
    rows
    ++ record {
      id = id;
      title = payload.title;
      body = payload.body;
      status = payload.status;
      audience = payload.audience;
      author_id = author_id_of author;
      published_at = publication payload.status now;
      created_at = now;
    }
      ∷ []

abbrev pub changed_announcement : ℕ → AnnouncementPayload → Announcement → Announcement
changed_announcement now payload a = record a {
  title = payload.title;
  body = payload.body;
  status = payload.status;
  audience = payload.audience;
  published_at = republication a.status payload.status now a.published_at;
}

unfoldable pub update_announcement :
    ℕ → ℕ → AnnouncementPayload → List Announcement → Result AppException (List Announcement)
update_announcement now id payload rows = do
  a ← require (find_row announcement_id_of id rows)
  ok (edit_row announcement_id_of id (changed_announcement now payload) rows)

unfoldable pub delete_announcement : ℕ → List Announcement → Result AppException (List Announcement)
delete_announcement id rows = do
  a ← require (find_row announcement_id_of id rows)
  ok (delete_row announcement_id_of id rows)

pub record FaqPayload : Type 0 where
  pub question : Text
  pub answer : Text
  pub category : Option Text
  pub sort_order : ℕ
  pub published : Bool

abbrev pub faq_id_of : Faq → ℕ
faq_id_of f = f.id

abbrev pub faq_with : FaqPayload → ℕ → ℕ → Faq
faq_with payload id created_at = record {
  id = id;
  question = payload.question;
  answer = payload.answer;
  category = payload.category;
  sort_order = payload.sort_order;
  published = payload.published;
  created_at = created_at;
}

unfoldable pub create_faq : ℕ → ℕ → FaqPayload → List Faq → List Faq
create_faq now id payload rows = rows ++ faq_with payload id now ∷ []

unfoldable pub update_faq : ℕ → FaqPayload → List Faq → Result AppException (List Faq)
update_faq id payload rows = do
  f ← require (find_row faq_id_of id rows)
  ok (edit_row faq_id_of id (λ g. faq_with payload g.id g.created_at) rows)

unfoldable pub delete_faq : ℕ → List Faq → Result AppException (List Faq)
delete_faq id rows = do f ← require (find_row faq_id_of id rows); ok (delete_row faq_id_of id rows)

pub record BlogPayload : Type 0 where
  pub title : Text
  pub slug : Option Text
  pub excerpt : Option Text
  pub content : Option Text
  pub status : Text
  pub cover_image : Option Text

abbrev pub post_id_of : BlogPost → ℕ
post_id_of p = p.id

-- `payload.content or ""`
abbrev pub or_empty : Option Text → Text
or_empty none = []
or_empty (some t) = t

-- `payload.slug or other`
abbrev pub slug_given : Option Text → Text → Text
slug_given none other = other
slug_given (some slug) other = if is_empty slug then other else slug

unfoldable pub create_blog :
    ℕ → ℕ → Text → BlogPayload → Option User → List BlogPost → Result AppException (List BlogPost)
unfolding slugify
create_blog now id fresh payload author rows =
    let slug = slug_given payload.slug (slugify fresh payload.title) in
    raise_if (any (λ p. text_eq p.slug slug) rows) AppException.database_error
    >> ok (
        rows
        ++ record {
          id = id;
          title = payload.title;
          slug = slug;
          excerpt = payload.excerpt;
          content = or_empty payload.content;
          status = payload.status;
          cover_image = payload.cover_image;
          author_id = author_id_of author;
          views = 0;
          published_at = publication payload.status now;
          created_at = now;
        }
          ∷ [])

abbrev pub changed_post : ℕ → BlogPayload → BlogPost → BlogPost
changed_post now payload p = record p {
  title = payload.title;
  slug = slug_given payload.slug p.slug;
  excerpt = payload.excerpt;
  content = or_empty payload.content;
  status = payload.status;
  cover_image = payload.cover_image;
  published_at = republication p.status payload.status now p.published_at;
}

-- Another post has the slug.
abbrev pub slug_taken : ℕ → Text → List BlogPost → Bool
slug_taken id slug rows = any (λ p. not (p.id == id) && text_eq p.slug slug) rows

unfoldable pub update_blog :
    ℕ → ℕ → BlogPayload → List BlogPost → Result AppException (List BlogPost)
update_blog now id payload rows = do
  p ← require (find_row post_id_of id rows)
  unique ←
      raise_if (slug_taken id (slug_given payload.slug p.slug) rows) AppException.database_error
  ok (edit_row post_id_of id (changed_post now payload) rows)

unfoldable pub delete_blog : ℕ → List BlogPost → Result AppException (List BlogPost)
delete_blog id rows = do
  p ← require (find_row post_id_of id rows)
  ok (delete_row post_id_of id rows)

pub record PagePayload : Type 0 where
  pub title : Text
  pub slug : Option Text
  pub page_path : Text
  pub content : Option Text
  pub status : Text
  pub meta_title : Option Text
  pub meta_description : Option Text

abbrev pub page_id_of : ContentPage → ℕ
page_id_of p = p.id

abbrev pub page_with : PagePayload → Text → ℕ → ℕ → ContentPage
page_with payload slug id created_at = record {
  id = id;
  title = payload.title;
  slug = slug;
  page_path = payload.page_path;
  content = payload.content;
  status = payload.status;
  meta_title = payload.meta_title;
  meta_description = payload.meta_description;
  created_at = created_at;
}

unfoldable pub create_page :
    ℕ → ℕ → Text → PagePayload → List ContentPage → Result AppException (List ContentPage)
unfolding slugify
create_page now id fresh payload rows =
    let slug = slug_given payload.slug (slugify fresh payload.title) in
    raise_if (any (λ p. text_eq p.slug slug) rows) AppException.database_error
    >> ok (rows ++ page_with payload slug id now ∷ [])

unfoldable pub update_page :
    ℕ → PagePayload → List ContentPage → Result AppException (List ContentPage)
update_page id payload rows = do
  p ← require (find_row page_id_of id rows)
  unique ←
      raise_if (any (λ r. not (r.id == id) && text_eq r.slug (slug_given payload.slug p.slug)) rows)
        AppException.database_error
  ok (
      edit_row page_id_of id
        (λ r. page_with payload (slug_given payload.slug r.slug) r.id r.created_at) rows)

unfoldable pub delete_page : ℕ → List ContentPage → Result AppException (List ContentPage)
delete_page id rows = do
  p ← require (find_row page_id_of id rows)
  ok (delete_row page_id_of id rows)
