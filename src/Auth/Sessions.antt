-- ===== src/Auth/Sessions.antt =====
-- From a registration to a login and to an authenticated request (app/services/auth.py,
-- app/dependencies/auth.py).
use tools_backend.Base.{
  ℕ, suc, ◌+◌, ◌≡◌, refl, ap, ◌∙◌, Bool, true, false, none, some, List, [], ◌∷◌, ◌++◌, arith,
  ==_iff, length, keep_if, any, is_empty, ok, err, >>=-eq-ok, raise_if-eq-ok, Text, codes, text_eq,
  is_space, strip_by, partition, text_eq_refl,
}
use tools_backend.Exceptions.{AppException}
use tools_backend.Admin.Rows.{User, find_row}
use tools_backend.Admin.Tables.{Tables, user_id_of, insert_user}
use tools_backend.Admin.Users.{
  Passwords, normalized, has_email, get_by_email, new_user, raise_if_found, suspended,
}
use tools_backend.Auth.{
  TokenType, access, refresh, type_name, Claims, Jwt, Settings, TokenPair, lifetime, create_token,
  decode_token, token_pair, register, login, bearer_token, get_current_user,
}
use tools_backend.Auth.Emails.{lower-idempotent, one_or_none-none, raise_if_found-eq-ok}

keep_if-none {ℓ} :
    {A : Type ℓ} (keep : A → Bool) (rows more : List A)
    → length (keep_if keep rows) ≡ 0
    → keep_if keep (rows ++ more) ≡ keep_if keep more
keep_if-none keep [] more h = refl
keep_if-none keep (x ∷ rows) more h = ground (arith, keep_if-none keep rows more)

find_row-snoc {ℓ} :
    {A : Type ℓ} (id_of : A → ℕ) (rows : List A) (x : A)
    → find_row id_of (id_of x) rows ≡ none
    → find_row id_of (id_of x) (rows ++ x ∷ []) ≡ some x
find_row-snoc id_of [] x h = rw ((==_iff (id_of x) (id_of x)).1 refl) refl
find_row-snoc id_of (y ∷ rows) x h = ground (arith, find_row-snoc id_of rows x)

-- A free address finds the new account once it has joined the table.
get_by_email-snoc :
    (users : List User) (u : User) (email other : Text)
    → u.email ≡ normalized email
    → normalized other ≡ normalized email
    → get_by_email users email ≡ ok none
    → get_by_email (users ++ u ∷ []) other ≡ ok (some u)
unfolding get_by_email normalized
get_by_email-snoc users u email other e same free =
    rw
      (
        same,
        keep_if-none (has_email (normalized email)) users (u ∷ [])
            (one_or_none-none (keep_if (has_email (normalized email)) users) free),
        e,
        lower-idempotent (strip_by is_space email),
        text_eq_refl (normalized email),
      )
      refl

-- The parts of a registration that succeeds.
register-parts :
    (passwords : Passwords) (jwt : Jwt) (settings : Settings) (t : Tables) {t' : Tables}
    (jtis : Text × Text) (name email password : Text) {u : User} {pair : TokenPair}
    → register passwords jwt settings t jtis name email password ≡ ok (t', u, pair)
    → (get_by_email t.users email ≡ ok none)
      × (u ≡ new_user passwords t name email password (codes "free") false)
      × (t' ≡ record t {
        users = t.users ++ new_user passwords t name email password (codes "free") false ∷ [];
        next_id = suc t.next_id;
      })
      × (pair ≡ token_pair jwt settings t.now jtis t.next_id)
unfolding register insert_user
register-parts passwords jwt settings t jtis name email password h =
    let user = new_user passwords t name email password (codes "free") false in
    let (exists, found, h1) = >>=-eq-ok (get_by_email t.users email) _ h in
    let (_, free, h2) = >>=-eq-ok (raise_if_found exists) _ h1 in
    let (t1, inserted, h3) = >>=-eq-ok (insert_user user t) _ h2 in
    let (_, e) =
      raise_if-eq-ok (any (λ v. text_eq v.email user.email) t.users) AppException.database_error
        (ok (record t { users = t.users ++ user ∷ []; next_id = suc t.next_id })) inserted in
    (found ∙ ap ok (raise_if_found-eq-ok exists free), cc, cc, cc)

module _ (passwords : Passwords) (jwt : Jwt) (settings : Settings) where
  -- After a registration, whoever knows the password logs in to the new account, with the address
  -- written in any case and with any space around it. bcrypt accepts a password against its hash.
  pub register-login :
      (t t' : Tables) (jtis jtis' : Text × Text) (name email other password : Text) (u : User)
      (pair : TokenPair)
      → register passwords jwt settings t jtis name email password ≡ ok (t', u, pair)
      → normalized other ≡ normalized email
      → passwords.verify_password password (passwords.hash_password password) ≡ true
      → login passwords jwt settings t' jtis' other password
        ≡ ok (u, token_pair jwt settings t.now jtis' u.id)
  unfolding login
  register-login t t' jtis jtis' name email other password u pair h same accepts =
      let (free, e, e', _) = register-parts passwords jwt settings t jtis name email password h in
      let user = new_user passwords t name email password (codes "free") false in
      rw (e, e', get_by_email-snoc t.users user email other refl same free, accepts) refl

-- The header that carries a token without blanks at its ends.
pub bearer_token-header :
    (token : Text)
    → strip_by is_space token ≡ token
    → is_empty token ≡ false
    → bearer_token (codes "Bearer " ++ token) ≡ some token
unfolding bearer_token partition
bearer_token-header token bare full = rw (bare, full) refl

-- The claims of a token that `create_token` issues.
abbrev pub claims_of : Jwt → Settings → ℕ → Text → ℕ → TokenType → Claims
claims_of jwt settings now jti user_id token_type = record {
  sub = some (jwt.uuid_text user_id);
  type = some (type_name token_type);
  iat = now;
  exp = now + lifetime jwt settings token_type;
  jti = jti;
}

-- What PyJWT does with a token of this service before it expires: it gives back the claims, and the
-- token has no blanks around it.
unfoldable pub Accepts : Jwt → Claims → ℕ → Type 0
Accepts jwt claims now =
    (jwt.decode (jwt.encode claims) now ≡ some claims)
    × (strip_by is_space (jwt.encode claims) ≡ jwt.encode claims)
    × (is_empty (jwt.encode claims) ≡ false)

module _ (jwt : Jwt) (settings : Settings) where
  -- A refresh token opens no session: the type of a token is checked.
  refused-refresh_token :
      (t : Tables) (issued : ℕ) (jti : Text) (user_id : ℕ)
      → Accepts jwt (claims_of jwt settings issued jti user_id refresh) t.now
      → get_current_user jwt t
          (codes "Bearer " ++ create_token jwt settings issued jti user_id refresh)
        ≡ err AppException.unauthorized_error
  unfolding create_token get_current_user decode_token Accepts
  refused-refresh_token t issued jti user_id (decodes, bare, full) =
      let claims = claims_of jwt settings issued jti user_id refresh in
      rw (bearer_token-header (jwt.encode claims) bare full, decodes) refl

  -- An access token opens the session of an account that is found and not suspended.
  pub access_token-session :
      (t : Tables) (issued : ℕ) (jti : Text) (u : User)
      → Accepts jwt (claims_of jwt settings issued jti u.id access) t.now
      → jwt.parse_uuid (jwt.uuid_text u.id) ≡ some u.id
      → find_row user_id_of u.id t.users ≡ some u
      → text_eq u.status suspended ≡ false
      → get_current_user jwt t (codes "Bearer " ++ create_token jwt settings issued jti u.id access)
        ≡ ok u
  unfolding create_token get_current_user decode_token Accepts
  access_token-session t issued jti u (decodes, bare, full) parsed found open_account =
      let claims = claims_of jwt settings issued jti u.id access in
      rw (bearer_token-header (jwt.encode claims) bare full, decodes, parsed, found, open_account)
        refl

module _ (passwords : Passwords) (jwt : Jwt) (settings : Settings) where
  -- The access token that a registration returns authenticates its account for as long as PyJWT
  -- accepts it, and the refresh token never does. The new identifier is fresh, and a UUID is read
  -- back from its text.
  pub register-get_current_user :
      (t t' : Tables) (jtis : Text × Text) (name email password : Text) (u : User)
      (pair : TokenPair) (now : ℕ)
      → register passwords jwt settings t jtis name email password ≡ ok (t', u, pair)
      → find_row user_id_of t.next_id t.users ≡ none
      → ((key : ℕ) → jwt.parse_uuid (jwt.uuid_text key) ≡ some key)
      → Accepts jwt (claims_of jwt settings t.now jtis.0 t.next_id access) now
      → Accepts jwt (claims_of jwt settings t.now jtis.1 t.next_id refresh) now
      → (get_current_user jwt (record t' { now = now }) (codes "Bearer " ++ pair.access_token)
          ≡ ok u)
        × (get_current_user jwt (record t' { now = now }) (codes "Bearer " ++ pair.refresh_token)
            ≡ err AppException.unauthorized_error)
  unfolding token_pair
  register-get_current_user t t' jtis name email password u pair now h fresh parses accepts
        refuses =
      let (_, e, e', p) = register-parts passwords jwt settings t jtis name email password h in
      let user = new_user passwords t name email password (codes "free") false in
      rw (e, e', p)
        (
          access_token-session jwt settings
              (record t { users = t.users ++ user ∷ []; next_id = suc t.next_id; now = now }) t.now
              jtis.0 user accepts (parses t.next_id) (find_row-snoc user_id_of t.users user fresh)
              refl,
          refused-refresh_token jwt settings
              (record t { users = t.users ++ user ∷ []; next_id = suc t.next_id; now = now }) t.now
              jtis.1 t.next_id refuses,
        )
