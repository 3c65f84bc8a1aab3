-- ===== src/Accounts.antt =====
-- backend/app/auth/router.py: accounts. A request that raises `HTTPException` ends with its status code,
-- any other exception with 500. Passwords and tokens are those of backend/app/auth/service.py, which
-- only calls bcrypt and the JWT library.
pub mod Login
pub mod Conflicts
use code_collaborator.Base.{
  ℕ, Bool, true, false, ◌||◌, Option, none, some, List, [], ◌∷◌, ◌++◌, filterb, if◌then◌else◌,
  Result, ok, err,
}
use text.Mathlib.Text.{◌==◌}
use Prim.Native.String.{String}

-- The columns of `User` that these endpoints use.
pub record Account (Hash : Type 0) : Type 0 where
  pub id : ℕ
  pub username : String
  pub email : String
  pub password_hash : Hash

-- What the endpoints take from elsewhere. `hash` is `hash_password` with the salt that it draws and
-- `verify` is `verify_password` (`none`: they raise); `create_token` is `create_access_token`, and
-- `subject` the user id of a token that `decode_token` accepts.
pub record Secrets : Type 1 where
  pub Hash : Type 0
  pub Salt : Type 0
  pub Token : Type 0
  pub hash : Salt → String → Option Hash
  pub verify : String → Hash → Option Bool
  pub create_token : ℕ → String → Token
  pub subject : Token → Option ℕ

-- `scalar_one_or_none`: more than one row is an error.
abbrev pub scalar_one_or_none : {A : Type 0} → List A → Result ℕ (Option A)
scalar_one_or_none [] = ok none
scalar_one_or_none (a ∷ []) = ok (some a)
scalar_one_or_none (a ∷ b ∷ rest) = err 500

module _ (secrets : Secrets) where
  open secrets use {Hash, Salt, Token, hash, verify, create_token}

  abbrev pub Accounts : Type 0
  Accounts = List (Account Hash)

  -- `(User.username == body.username) | (User.email == body.email)`
  abbrev pub is_duplicate : (username email : String) → Account Hash → Bool
  is_duplicate username email a = a.username == username || a.email == email

  abbrev pub has_username : String → Account Hash → Bool
  has_username username a = a.username == username

  abbrev pub hashed :
      ℕ → (username email : String) → Option Hash → Accounts → Result ℕ (Account Hash) × Accounts
  hashed id username email none accounts = (err 500, accounts)
  hashed id username email (some h) accounts =
      let account : Account Hash = record {
        id = id;
        username = username;
        email = email;
        password_hash = h;
      } in
      (ok account, accounts ++ account ∷ [])

  abbrev pub registered :
      Salt
      → ℕ
      → (username email password : String) → Result ℕ (Option (Account Hash))
      → Accounts
      → Result ℕ (Account Hash) × Accounts
  registered salt id username email password (err status) accounts = (err status, accounts)
  registered salt id username email password (ok (some existing)) accounts = (err 409, accounts)
  registered salt id username email password (ok none) accounts =
      hashed id username email (hash salt password) accounts

  -- `register`; `id` is the key of the new row.
  unfoldable pub register :
      Salt → ℕ → (username email password : String) → Accounts → Result ℕ (Account Hash) × Accounts
  register salt id username email password accounts =
      registered salt id username email password
        (scalar_one_or_none (filterb (is_duplicate username email) accounts)) accounts

  abbrev verified : Account Hash → Option Bool → Result ℕ Token
  verified account none = err 500
  verified account (some false) = err 401
  verified account (some true) = ok (create_token account.id account.username)

  abbrev logged_in : String → Result ℕ (Option (Account Hash)) → Result ℕ Token
  logged_in password (err status) = err status
  logged_in password (ok none) = err 401
  logged_in password (ok (some account)) = verified account (verify password account.password_hash)

  -- `login`
  unfoldable pub login : (username password : String) → Accounts → Result ℕ Token
  login username password accounts =
      logged_in password (scalar_one_or_none (filterb (has_username username) accounts))
