-- ===== src/Auth/Suspension.antt =====
-- What a suspension takes away (`set_user_status` of app/services/admin.py, `login` and `refresh` of
-- app/services/auth.py, `get_optional_user` of app/dependencies/auth.py).
use tools_backend.Base.{ℕ, ◌≡◌, refl, inl, inr, some, Bool-cases, ok, err, >>=-eq-ok, Text}
use tools_backend.Exceptions.{AppException}
use tools_backend.Admin.Rows.{User, find_row, edit_row}
use tools_backend.Admin.Rows.Lookup.{find_row-edit_row, find_row-id}
use tools_backend.Admin.Tables.{Tables, user_id_of}
use tools_backend.Admin.Users.{
  require-eq-ok, Passwords, get_user, set_user_status, with_status, suspended, get_by_email,
}
use tools_backend.Auth.{
  access, refresh, Claims, Jwt, Settings, decode_token, token_pair, login, refresh_tokens,
  bearer_token, get_current_user, uuid_of,
}

-- The tables and the row behind a change of a status.
set_user_status-parts :
    (t : Tables) {t' : Tables} (user_id : ℕ) (status : Text) {u : User}
    → set_user_status t user_id status ≡ ok (t', u)
    → (v : User) × (find_row user_id_of user_id t.users ≡ some v)
      × (t' ≡ record t { users = edit_row user_id_of user_id (with_status status) t.users })
      × (u ≡ with_status status v)
unfolding set_user_status get_user
set_user_status-parts t user_id status h =
    let (v, found, e) = >>=-eq-ok (get_user t user_id) _ h in
    (v, require-eq-ok (find_row user_id_of user_id t.users) found, cc, cc)

set_user_status-row :
    (t : Tables) {t' : Tables} (user_id : ℕ) (status : Text) {u : User}
    → set_user_status t user_id status ≡ ok (t', u)
    → (find_row user_id_of user_id t'.users ≡ some u) × (u.status ≡ status) × (u.id ≡ user_id)
set_user_status-row t user_id status h =
    let (v, found, e, e') = set_user_status-parts t user_id status h in
    rw (e, e')
      (
        find_row-edit_row user_id_of user_id (with_status status) t.users v (λ w. refl) found,
        refl,
        find_row-id user_id_of user_id t.users v found,
      )

module _ (passwords : Passwords) (jwt : Jwt) (settings : Settings) where
  -- Behind the suspension of an account, a request that carries an access token of it is refused,
  -- and so is a login to it, whatever the password.
  pub set_user_status-revokes :
      (t t' : Tables) (user_id : ℕ) (u : User) (header token : Text) (payload : Claims)
      (jtis : Text × Text) (email password : Text)
      → set_user_status t user_id suspended ≡ ok (t', u)
      → bearer_token header ≡ some token
      → decode_token jwt t'.now token access ≡ some payload
      → uuid_of jwt payload.sub ≡ ok user_id
      → get_by_email t'.users email ≡ ok (some u)
      → (get_current_user jwt t' header ≡ err AppException.unauthorized_error)
        × (login passwords jwt settings t' jtis email password
            ≡ err AppException.unauthorized_error)
  unfolding get_current_user login
  set_user_status-revokes t t' user_id u header token payload jtis email password h carries decodes
        subject found =
      let (row, status, _) = set_user_status-row t user_id suspended h in
      (
        rw (carries, decodes, subject, row, status) refl,
        elim (Bool-cases (passwords.verify_password password u.password_hash)) [
          | inl fits ↦ rw (found, fits, status) refl
          | inr differs ↦ rw (found, differs) refl
        ],
      )

module _ (jwt : Jwt) (settings : Settings) where
  -- Behind the suspension of an account, a refresh token of it is still exchanged for a new pair.
  pub set_user_status-refresh_tokens :
      (t t' : Tables) (user_id : ℕ) (u : User) (token : Text) (payload : Claims)
      (jtis : Text × Text)
      → set_user_status t user_id suspended ≡ ok (t', u)
      → decode_token jwt t'.now token refresh ≡ some payload
      → uuid_of jwt payload.sub ≡ ok user_id
      → refresh_tokens jwt settings t' jtis token ≡ ok (token_pair jwt settings t'.now jtis user_id)
  unfolding refresh_tokens
  set_user_status-refresh_tokens t t' user_id u token payload jtis h decodes subject =
      let (row, _, same) = set_user_status-row t user_id suspended h in
      rw (decodes, subject, row, same) refl
