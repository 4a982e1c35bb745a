-- ===== src/Admin/Examples.antt =====
-- Small tables for the theorems about the admin panel.
use tools_backend.Base.{
  ℕ, String, ◌≡◌, refl, Bool, true, false, none, some, List, [], ◌∷◌, ◌++◌, ltb, keep_if, is_empty,
  Result, ok, err, codes, text_eq, contains,
}
use tools_backend.Sorting.{sort_by}
use tools_backend.Exceptions.{AppException}
use tools_backend.Json.{Json, Fields, empty, field}
use tools_backend.Admin.Rows.{User}
use tools_backend.Admin.Tables.{Tables}
use tools_backend.Admin.Users.{Passwords}
use tools_backend.Admin.Users.Acting.{CanAct}
use tools_backend.Admin.Users.OwnAccount.{AccountRequest, in_bulk, perform-CanAct, perform}
use tools_backend.Admin.Settings.{AppSetting, get_setting, update_setting}
use tools_backend.Admin.Settings.Updated.{update_setting-get_setting, stored_value, MergesInto}
use tools_backend.Admin.Listing.{column_like}
use tools_backend.Admin.Listing.Search.{column_like-contains}
use tools_backend.Admin.Content.{AnnouncementPayload, slugify}
use tools_backend.Admin.Content.Slug.{AreSlugCharacters, slugify-characters}
use tools_backend.Admin.Content.Published.{
  creation, revision, change_all, AreStamped, change_all-AreStamped,
}

abbrev member_of : ℕ → String → Bool → User
member_of id name is_admin = record {
  id = id;
  name = codes name;
  email = codes name ++ codes "@example.com";
  password_hash = codes "hash";
  plan = codes "free";
  avatar = none;
  email_verified_at = none;
  is_admin = is_admin;
  status = codes "active";
  created_at = 5;
}

abbrev root : User
root = member_of 1 "root" true

abbrev guest : User
guest = member_of 2 "guest" false

abbrev tables : Tables
tables = record {
  users = root ∷ guest ∷ [];
  subscriptions = [];
  audit_logs = [];
  messages = [];
  feedback = [];
  announcements = [];
  posts = [];
  jobs = [];
  files = [];
  next_id = 3;
  now = 10;
}

abbrev passwords : Passwords
passwords = record { hash_password = λ p. p; verify_password = λ p hash. text_eq p hash }

abbrev suspending_guest : AccountRequest
suspending_guest = in_bulk (codes "suspend") (2 ∷ [])

abbrev tables_behind : Result AppException Tables → Tables
tables_behind (ok t) = t
tables_behind (err _) = tables

perform-CanAct_example :
    CanAct 1 (tables_behind (perform passwords root none suspending_guest tables)).users
unfolding perform CanAct
perform-CanAct_example =
    perform-CanAct passwords root none suspending_guest tables
      (tables_behind (perform passwords root none suspending_guest tables)) refl
      (root, refl, refl, refl)

abbrev number_of : String → Json
number_of t = Json.number (codes t)

abbrev branding : Fields
branding = field (codes "name") (Json.string (codes "Tools")) (
    field (codes "social")
      (Json.object (field (codes "x") (number_of "1") (field (codes "y") (number_of "2") empty)))
      empty)

abbrev settings_rows : List AppSetting
settings_rows =
    record {
      key = codes "branding";
      value = branding;
      category = codes "branding";
      updated_by = none;
    }
    ∷ []

abbrev new_social : Fields
new_social = field (codes "social") (Json.object (field (codes "y") (number_of "3") empty)) empty

update_setting-get_setting_example :
    (get_setting
        (update_setting settings_rows (codes "branding") new_social (some 1)).0
        (codes "branding")
      ≡ ok (update_setting settings_rows (codes "branding") new_social (some 1)).1)
    × MergesInto
        (stored_value (get_setting settings_rows (codes "branding")))
        new_social
        (update_setting settings_rows (codes "branding") new_social (some 1)).1
    × (get_setting
          (update_setting settings_rows (codes "branding") new_social (some 1)).0
          (codes "seo")
        ≡ get_setting settings_rows (codes "seo"))
unfolding tools_backend.Admin.Settings.Merged.IsNested
update_setting-get_setting_example =
    update_setting-get_setting settings_rows (codes "branding") new_social (some 1) (codes "seo")
      (refl, (refl, tt, tt), tt) refl

abbrev numbers : List ℕ
numbers = 5 ∷ 1 ∷ 4 ∷ 2 ∷ 3 ∷ []

-- The rows are numbers, sorted by size.
abbrev as_ranked : ℕ → ℕ
as_ranked n = n

abbrev answer : ℕ → List ℕ → List ℕ
answer k xs = sort_by as_ranked xs

abbrev found : List ℕ
found = keep_if (λ n. ltb 1 n) numbers

column_like-contains_example :
    column_like (codes "Ali") (codes "alice") ≡ contains (codes "ali") (codes "alice")
column_like-contains_example =
    column_like-contains (codes "Ali") (codes "alice") (refl, (refl, (refl, tt)))

slugify-characters_example :
    AreSlugCharacters (slugify (codes "0a1b2c3d") (codes " Hello, World! "))
    × (is_empty (slugify (codes "0a1b2c3d") (codes " Hello, World! ")) ≡ false)
slugify-characters_example =
    slugify-characters (codes "0a1b2c3d") (codes " Hello, World! ")
      (refl, (refl, (refl, (refl, (refl, (refl, (refl, (refl, tt)))))))) refl

abbrev notice : String → AnnouncementPayload
notice status = record {
  title = codes "Notice";
  body = codes "Text";
  status = codes status;
  audience = codes "all";
}

change_all-AreStamped_example : AreStamped (
    change_all
      ((10, creation 1 (notice "draft") none) ∷ (20, revision 1 (notice "published")) ∷ [])
      [])
change_all-AreStamped_example =
    change_all-AreStamped
      ((10, creation 1 (notice "draft") none) ∷ (20, revision 1 (notice "published")) ∷ []) [] tt
