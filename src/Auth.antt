-- ===== src/Auth.antt =====
-- Registration, login, token refresh and the authentication of a request (app/services/auth.py,
-- app/core/security.py, app/dependencies/auth.py, app/dependencies/admin.py). bcrypt, PyJWT and the
-- text of a UUID are parameters.
pub mod Emails
pub mod Soundness
pub mod Kept
pub mod Reached
pub mod Sessions
pub mod Suspension
mod Examples
use tools_backend.Base.{
  ℕ, ◌+◌, ◌-◌, ◌*◌, ◌/◌, min, ap, Bool, true, false, ◌&&◌, not, Option, none, some, if◌then◌else◌,
  set, is_empty, Result, ok, err, raise_if, Text, codes, text_eq, is_space, strip_by, lower,
  partition, ◌>>=◌, ◌>>◌,
}
use tools_backend.Exceptions.{AppException}
use tools_backend.Admin.Rows.{User, find_row}
use tools_backend.Admin.Tables.{Tables, user_id_of, insert_user}
use tools_backend.Admin.Users.{Passwords, get_by_email, new_user, raise_if_found, suspended}

pub data TokenType : Type 0 where
  access refresh : TokenType

abbrev pub type_name : TokenType → Text
type_name access = codes "access"
type_name refresh = codes "refresh"

-- The payload of a token; a token from elsewhere may lack the first two entries.
pub record Claims : Type 0 where
  pub sub : Option Text
  pub type : Option Text
  pub iat : ℕ
  pub exp : ℕ
  pub jti : Text

-- `jwt.encode`, and `jwt.decode` at a time (`none` is a PyJWTError); `str(uuid)` and `uuid.UUID`
pub record Jwt : Type 0 where
  pub encode : Claims → Text
  pub decode : Text → ℕ → Option Claims
  pub uuid_text : ℕ → Text
  pub parse_uuid : Text → Option ℕ

pub record Settings : Type 0 where
  pub access_token_expire_minutes : ℕ
  pub refresh_token_expire_days : ℕ

pub record TokenPair : Type 0 where
  pub access_token : Text
  pub refresh_token : Text
  pub expires_in : ℕ

abbrev pub is_type : TokenType → Option Text → Bool
is_type expected none = false
is_type expected (some name) = text_eq name (type_name expected)

abbrev pub is_given {ℓ} : {A : Type ℓ} → Option A → Bool
is_given none = false
is_given (some _) = true

-- `if user is None: raise UnauthorizedError(...)`, and the same for a payload
abbrev pub authorized {ℓ} : {A : Type ℓ} → Option A → Result AppException A
authorized none = err AppException.unauthorized_error
authorized (some x) = ok x

-- `uuid.UUID(payload["sub"])`, whose ValueError no handler expects
abbrev pub uuid_of : Jwt → Option Text → Result AppException ℕ
uuid_of jwt none = err AppException.database_error
uuid_of jwt (some t) = elim (jwt.parse_uuid t) [
  | none ↦ err AppException.database_error
  | some key ↦ ok key
]

module _ (jwt : Jwt) where
  abbrev pub lifetime : Settings → TokenType → ℕ
  lifetime settings access = settings.access_token_expire_minutes * 60
  lifetime settings refresh = settings.refresh_token_expire_days * 86400

  -- `jti` is the fresh identifier of the token.
  unfoldable pub create_token : Settings → ℕ → Text → ℕ → TokenType → Text
  create_token settings now jti user_id token_type = jwt.encode (record {
    sub = some (jwt.uuid_text user_id);
    type = some (type_name token_type);
    iat = now;
    exp = now + lifetime settings token_type;
    jti = jti;
  })

  abbrev pub claims_of_type : TokenType → Option Claims → Option Claims
  claims_of_type expected none = none
  claims_of_type expected (some payload) =
      if is_type expected payload.type && is_given payload.sub then some payload else none

  unfoldable pub decode_token : ℕ → Text → TokenType → Option Claims
  decode_token now token expected = claims_of_type expected (jwt.decode token now)

  -- `_token_pair`, with the two identifiers that it draws
  unfoldable pub token_pair : Settings → ℕ → Text × Text → ℕ → TokenPair
  unfolding create_token
  token_pair settings now (first, second) user_id = record {
    access_token = create_token settings now first user_id access;
    refresh_token = create_token settings now second user_id refresh;
    expires_in = settings.access_token_expire_minutes * 60;
  }

module _ (passwords : Passwords) (jwt : Jwt) (settings : Settings) where
  unfoldable pub register :
      Tables → Text × Text → Text → Text → Text → Result AppException (Tables × User × TokenPair)
  unfolding get_by_email insert_user token_pair
  register t jtis name email password = do
    exists ← get_by_email t.users email
    fresh ← raise_if_found exists
    let user = new_user passwords t name email password (codes "free") false
    after ← insert_user user t
    ok (after, user, token_pair jwt settings t.now jtis user.id)

  -- `user is None or not verify_password(...)`
  abbrev pub password_fits : Option User → Text → Result AppException User
  password_fits none password = err AppException.unauthorized_error
  password_fits (some u) password =
      if passwords.verify_password password u.password_hash
      then ok u
      else err AppException.unauthorized_error

  unfoldable pub login : Tables → Text × Text → Text → Text → Result AppException (User × TokenPair)
  unfolding get_by_email token_pair
  login t jtis email password = do
    found ← get_by_email t.users email
    user ← password_fits found password
    enabled ← raise_if (text_eq user.status suspended) AppException.unauthorized_error
    ok (user, token_pair jwt settings t.now jtis user.id)

module _ (jwt : Jwt) where
  unfoldable pub refresh_tokens :
      Settings → Tables → Text × Text → Text → Result AppException TokenPair
  unfolding decode_token token_pair
  refresh_tokens settings t jtis refresh_token = do
    payload ← authorized (decode_token jwt t.now refresh_token refresh)
    key ← uuid_of jwt payload.sub
    user ← authorized (find_row user_id_of key t.users)
    ok (token_pair jwt settings t.now jtis user.id)

abbrev pub token_of : Text → Option Text → Option Text
token_of scheme none = none
token_of scheme (some rest) =
    let token = strip_by is_space rest in
    if text_eq (lower scheme) (codes "bearer") && not (is_empty token) then some token else none

-- `bearer_token`, from the value of the Authorization header (empty when there is none)
unfoldable pub bearer_token : Text → Option Text
unfolding partition strip_by
bearer_token header = let (scheme, rest) = partition b' ' header in token_of scheme rest

module _ (jwt : Jwt) where
  unfoldable pub user_of_token : Tables → Option Text → Result AppException (Option User)
  unfolding decode_token
  user_of_token t none = ok none
  user_of_token t (some token) = do
    payload ← authorized (decode_token jwt t.now token access)
    key ← uuid_of jwt payload.sub
    user ← authorized (find_row user_id_of key t.users)
    enabled ← raise_if (text_eq user.status suspended) AppException.unauthorized_error
    ok (some user)

  unfoldable pub get_optional_user : Tables → Text → Result AppException (Option User)
  unfolding bearer_token user_of_token
  get_optional_user t header = user_of_token t (bearer_token header)

  unfoldable pub get_current_user : Tables → Text → Result AppException User
  unfolding get_optional_user
  get_current_user t header = do user ← get_optional_user t header; authorized user

  unfoldable pub get_current_admin : Tables → Text → Result AppException User
  unfolding get_current_user
  get_current_admin t header = do
    user ← get_current_user t header
    admin ← raise_if (not user.is_admin) AppException.forbidden_error
    ok user
