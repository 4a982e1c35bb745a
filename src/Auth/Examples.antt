-- ===== src/Auth/Examples.antt =====
-- A registration, a login and a suspension, with passwords that are their own hashes and tokens that
-- are the names of their types.
use tools_backend.Base.{
  ℕ, ◌-◌, min, ◌≡◌, refl, false, Option, none, some, [], ◌∷◌, arith, if◌then◌else◌, set, ok, err,
  Text, codes, text_eq, strip_by,
}
use tools_backend.Exceptions.{AppException}
use tools_backend.Admin.Rows.{User}
use tools_backend.Admin.Tables.{Tables}
use tools_backend.Admin.Users.{Passwords, UserCreate, active, suspended}
use tools_backend.Auth.{
  TokenType, access, refresh, type_name, Claims, Jwt, Settings, TokenPair, register, login,
  get_current_user, token_pair, refresh_tokens,
}
use tools_backend.Auth.Emails.{HasUniqueEmails}
use tools_backend.Auth.Soundness.{IsSound, HaveOwners}
use tools_backend.Auth.Reached.{registering, handle, start, after, Reach-IsSound}
use tools_backend.Auth.Sessions.{Accepts, register-login, register-get_current_user}
use tools_backend.Auth.Suspension.{set_user_status-revokes}

abbrev passwords : Passwords
passwords = record { hash_password = λ p. p; verify_password = λ p hash. text_eq p hash }

abbrev settings : Settings
settings = record { access_token_expire_minutes = 30; refresh_token_expire_days = 7 }

abbrev sample_claims : TokenType → Claims
sample_claims access = record {
  sub = some (1 ∷ []);
  type = some (codes "access");
  iat = 10;
  exp = 1810;
  jti = codes "a";
}
sample_claims refresh = record {
  sub = some (1 ∷ []);
  type = some (codes "refresh");
  iat = 10;
  exp = 604810;
  jti = codes "b";
}

abbrev type_text : Option Text → Text
type_text none = []
type_text (some t) = t

abbrev decoded : Text → Option Claims
decoded token =
    if text_eq token (codes "access")
    then some (sample_claims access)
    else if text_eq token (codes "refresh")
    then some (sample_claims refresh)
    else none

abbrev uuid_number : Text → Option ℕ
uuid_number [] = none
uuid_number (c ∷ []) = some c
uuid_number (c ∷ d ∷ t) = none

abbrev jwt : Jwt
jwt = record {
  encode = λ c. type_text c.type;
  decode = λ token now. decoded token;
  uuid_text = λ key. key ∷ [];
  parse_uuid = uuid_number;
}

abbrev empty_tables : Tables
empty_tables = record {
  users = [];
  subscriptions = [];
  audit_logs = [];
  messages = [];
  feedback = [];
  announcements = [];
  posts = [];
  jobs = [];
  files = [];
  next_id = 1;
  now = 10;
}

abbrev alice : User
alice = record {
  id = 1;
  name = codes "Alice";
  email = codes "alice@example.com";
  password_hash = codes "secret12";
  plan = codes "free";
  avatar = none;
  email_verified_at = none;
  is_admin = false;
  status = codes "active";
  created_at = 10;
}

abbrev with_alice : Tables
with_alice = record empty_tables { users = alice ∷ []; next_id = 2 }

abbrev pair : TokenPair
pair = record { access_token = codes "access"; refresh_token = codes "refresh"; expires_in = 1800 }

abbrev jtis : Text × Text
jtis = (codes "a", codes "b")

alice_registers :
    register passwords jwt settings empty_tables jtis
      (codes " Alice ")
      (codes " Alice@Example.com")
      (codes "secret12")
    ≡ ok (with_alice, alice, pair)
unfolding register tools_backend.Base.strip_by
alice_registers = refl

no_users-IsSound : IsSound empty_tables
unfolding IsSound HasUniqueEmails HaveOwners
no_users-IsSound = (λ email. omega arith, tt)

Reach-IsSound_example : IsSound with_alice
unfolding handle tools_backend.Base.strip_by
Reach-IsSound_example =
    Reach-IsSound passwords jwt settings
      (after (registering jtis (codes " Alice ") (codes " Alice@Example.com") (codes "secret12"))
        start refl)
      no_users-IsSound

register-login_example :
    login passwords jwt settings with_alice jtis (codes "ALICE@example.com ") (codes "secret12")
    ≡ ok (alice, token_pair jwt settings 10 jtis 1)
unfolding tools_backend.Admin.Users.normalized tools_backend.Base.strip_by
register-login_example =
    register-login passwords jwt settings empty_tables with_alice jtis jtis (codes " Alice ")
      (codes " Alice@Example.com") (codes "ALICE@example.com ") (codes "secret12") alice pair
      alice_registers refl refl

register-get_current_user_example :
    (get_current_user jwt (record with_alice { now = 20 }) (codes "Bearer access") ≡ ok alice)
    × (get_current_user jwt (record with_alice { now = 20 }) (codes "Bearer refresh")
        ≡ err AppException.unauthorized_error)
unfolding Accepts tools_backend.Base.strip_by
register-get_current_user_example =
    register-get_current_user passwords jwt settings empty_tables with_alice jtis (codes " Alice ")
      (codes " Alice@Example.com") (codes "secret12") alice pair 20 alice_registers refl
      (λ key. refl) (refl, refl, refl) (refl, refl, refl)

abbrev suspended_alice : User
suspended_alice = record alice { status = codes "suspended" }

abbrev without_alice : Tables
without_alice = record with_alice { users = suspended_alice ∷ [] }

set_user_status-revokes_example :
    (get_current_user jwt without_alice (codes "Bearer access")
      ≡ err AppException.unauthorized_error)
    × (login passwords jwt settings without_alice jtis
          (codes "alice@example.com")
          (codes "secret12")
        ≡ err AppException.unauthorized_error)
unfolding tools_backend.Admin.Users.set_user_status tools_backend.Auth.bearer_token
    tools_backend.Auth.decode_token tools_backend.Admin.Users.get_by_email
set_user_status-revokes_example =
    set_user_status-revokes passwords jwt settings with_alice without_alice 1 suspended_alice
      (codes "Bearer access") (codes "access") (sample_claims access) jtis
      (codes "alice@example.com") (codes "secret12") refl refl refl refl refl
