-- ===== src/Admin/Rows.antt =====
-- The rows of the accounts and of the admin panel (app/models/user.py, app/models/admin.py), and
-- the tables. The column `updated_at`, which only the database writes, is not kept.
pub mod Lookup
use tools_backend.Base.{
  ℕ, ◌-◌, ◌/◌, min, ap, Bool, not, Option, none, some, List, [], ◌∷◌, ◌==◌, if◌then◌else◌, keep_if,
  ok, Text,
}
use tools_backend.Json.{Fields}

pub record User : Type 0 where
  pub id : ℕ
  pub name : Text
  pub email : Text
  pub password_hash : Text
  pub plan : Text
  pub avatar : Option Text
  pub email_verified_at : Option ℕ
  pub is_admin : Bool
  pub status : Text
  pub created_at : ℕ

pub record Subscription : Type 0 where
  pub id : ℕ
  pub user_id : ℕ
  pub plan : Text
  pub price_cents : ℕ
  pub currency : Text
  pub interval : Text
  pub status : Text
  pub provider : Text
  pub provider_ref : Option Text
  pub started_at : Option ℕ
  pub renews_at : Option ℕ
  pub payments_count : ℕ
  pub created_at : ℕ

pub record AdminAuditLog : Type 0 where
  pub id : ℕ
  pub actor_id : Option ℕ
  pub actor_email : Option Text
  pub action : Text
  pub category : Text
  pub entity_type : Option Text
  pub entity_id : Option Text
  pub summary : Text
  pub ip : Option Text
  pub meta : Fields
  pub created_at : ℕ

pub record ContactMessage : Type 0 where
  pub id : ℕ
  pub name : Text
  pub email : Text
  pub subject : Option Text
  pub message : Text
  pub is_read : Bool
  pub reply : Option Text
  pub replied_at : Option ℕ
  pub user_id : Option ℕ
  pub client_ip : Option Text
  pub created_at : ℕ

-- `Feedback` of app/models/feedback.py; an attachment is its bytes.
pub record Feedback : Type 0 where
  pub id : ℕ
  pub name : Text
  pub email : Text
  pub subject : Option Text
  pub category : Text
  pub message : Text
  pub attachment_name : Option Text
  pub attachment_content_type : Option Text
  pub attachment_size : Option ℕ
  pub attachment_data : Option Text
  pub client_ip : Option Text
  pub user_id : Option ℕ
  pub created_at : ℕ

pub record ToolConfig : Type 0 where
  pub id : ℕ
  pub slug : Text
  pub name : Text
  pub category : Text
  pub enabled : Bool
  pub visible : Bool
  pub maintenance : Bool
  pub file_limit_mb : ℕ
  pub sort_order : ℕ
  pub created_at : ℕ

pub record Announcement : Type 0 where
  pub id : ℕ
  pub title : Text
  pub body : Text
  pub status : Text
  pub audience : Text
  pub author_id : Option ℕ
  pub published_at : Option ℕ
  pub created_at : ℕ

pub record Faq : Type 0 where
  pub id : ℕ
  pub question : Text
  pub answer : Text
  pub category : Option Text
  pub sort_order : ℕ
  pub published : Bool
  pub created_at : ℕ

pub record BlogPost : Type 0 where
  pub id : ℕ
  pub title : Text
  pub slug : Text
  pub excerpt : Option Text
  pub content : Text
  pub status : Text
  pub cover_image : Option Text
  pub author_id : Option ℕ
  pub views : ℕ
  pub published_at : Option ℕ
  pub created_at : ℕ

pub record ContentPage : Type 0 where
  pub id : ℕ
  pub title : Text
  pub slug : Text
  pub page_path : Text
  pub content : Option Text
  pub status : Text
  pub meta_title : Option Text
  pub meta_description : Option Text
  pub created_at : ℕ

pub record ErrorLog : Type 0 where
  pub id : ℕ
  pub level : Text
  pub message : Text
  pub service : Option Text
  pub request_path : Option Text
  pub stack : Option Text
  pub fingerprint : Option Text
  pub count : ℕ
  pub resolved : Bool
  pub last_seen_at : Option ℕ
  pub created_at : ℕ

-- `session.get(Model, key)`; `id_of` reads the primary key of a row.
module _ {ℓ} {A : Type ℓ} (id_of : A → ℕ) where
  abbrev pub find_row : ℕ → List A → Option A
  find_row key [] = none
  find_row key (x ∷ xs) = let rest = find_row key xs in if id_of x == key then some x else rest

  -- The flush of a change that the session made to the row of this key.
  abbrev pub edit_row : ℕ → (A → A) → List A → List A
  edit_row key change [] = []
  edit_row key change (x ∷ xs) =
      let rest = edit_row key change xs in if id_of x == key then change x ∷ rest else x ∷ rest

  -- `session.delete(row)`
  abbrev pub delete_row : ℕ → List A → List A
  delete_row key rows = keep_if (λ x. not (id_of x == key)) rows
