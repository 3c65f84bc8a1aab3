-- ===== src/Accounts/Login.antt =====
-- Registering and logging in (backend/app/auth/router.py).
use code_collaborator.Base.{
  ℕ, ◌≡◌, refl, ◌∙◌, ap, sym, Bool, true, false, Option, none, some, List, [], ◌∷◌, ◌++◌, filterb,
  Bool-cases, inl, inr, arith, ok,
}
use code_collaborator.Accounts.{
  Account, Secrets, scalar_one_or_none, Accounts, is_duplicate, has_username, register, login,
}
use text.Mathlib.TextPositions.{eq_refl}
use Prim.Native.String.{String}

module _ (secrets : Secrets) where
  open secrets use {Hash, Salt, Token, hash, verify, create_token, subject}

  filter_yes :
      {A : Type 0} (p : A → Bool) (x : A) (xs : List A)
      → p x ≡ true
      → filterb p (x ∷ xs) ≡ x ∷ filterb p xs
  filter_yes p x xs e = rw (filterb, e) refl

  filter_no :
      {A : Type 0} (p : A → Bool) (x : A) (xs : List A)
      → p x ≡ false
      → filterb p (x ∷ xs) ≡ filterb p xs
  filter_no p x xs e = rw (filterb, e) refl

  -- Where nobody has the name or the address, nobody has the name.
  no_duplicate :
      (username email : String) (accounts : Accounts secrets)
      → filterb (is_duplicate secrets username email) accounts ≡ []
      → filterb (has_username secrets username) accounts ≡ []
  no_duplicate username email [] e = refl
  no_duplicate username email (a ∷ rest) e =
      let p = is_duplicate secrets username email in
      elim (Bool-cases (p a)) [
        | inl taken ↦ cc (filter_yes p a rest taken, e)
        | inr free ↦
            filter_no (has_username secrets username) a rest (ground (free, arith))
            ∙ no_duplicate username email rest (sym (filter_no p a rest free) ∙ e)
      ]

  filterb-append :
      {A : Type 0} (p : A → Bool) (xs ys : List A)
      → filterb p xs ≡ []
      → filterb p (xs ++ ys) ≡ filterb p ys
  filterb-append p [] ys e = refl
  filterb-append p (x ∷ xs) ys e = elim (Bool-cases (p x)) [
    | inl yes_p ↦ cc (filter_yes p x xs yes_p, e)
    | inr no_p ↦
        filter_no p x (xs ++ ys) no_p ∙ filterb-append p xs ys (sym (filter_no p x xs no_p) ∙ e)
  ]

  -- What a registration that succeeds says.
  record Registered (salt : Salt) (id : ℕ) (username email password : String)
      (accounts after : Accounts secrets) : Type 0 where
    was_free : filterb (is_duplicate secrets username email) accounts ≡ []
    password_hash : Hash
    hashed : hash salt password ≡ some password_hash
    result :
        after
        ≡ accounts
          ++ record { id = id; username = username; email = email; password_hash = password_hash }
            ∷ []

  with_hash :
      (salt : Salt) (id : ℕ) (username email password : String) (accounts after : Accounts secrets)
      (account : Account Hash) (o : Option Hash)
      → hash salt password ≡ o
      → filterb (is_duplicate secrets username email) accounts ≡ []
      → code_collaborator.Accounts.hashed secrets id username email o accounts ≡ (ok account, after)
      → Registered salt id username email password accounts after
  with_hash salt id username email password accounts after account none found free e = cc
  with_hash salt id username email password accounts after account (some h) found free e = record {
    was_free = free;
    password_hash = h;
    hashed = found;
    result = cc e;
  }

  with_rows :
      (salt : Salt) (id : ℕ) (username email password : String) (accounts after : Accounts secrets)
      (account : Account Hash) (rows : List (Account Hash))
      → filterb (is_duplicate secrets username email) accounts ≡ rows
      → code_collaborator.Accounts.registered secrets salt id username email password
          (scalar_one_or_none rows)
          accounts
        ≡ (ok account, after)
      → Registered salt id username email password accounts after
  with_rows salt id username email password accounts after account [] found e =
      with_hash salt id username email password accounts after account (hash salt password) refl
        found e
  with_rows salt id username email password accounts after account (a ∷ []) found e = cc
  with_rows salt id username email password accounts after account (a ∷ b ∷ rest) found e = cc

  register-eq_ok :
      (salt : Salt) (id : ℕ) (username email password : String) (accounts after : Accounts secrets)
      (account : Account Hash)
      → register secrets salt id username email password accounts ≡ (ok account, after)
      → Registered salt id username email password accounts after
  unfolding register
  register-eq_ok salt id username email password accounts after account e =
      with_rows salt id username email password accounts after account
        (filterb (is_duplicate secrets username email) accounts) refl e

  -- A user who has registered can log in with the same name and password, and the token stands for the new
  -- account, where bcrypt verifies the passwords that it has hashed and the token of an account is
  -- accepted.
  pub login-register :
      (salt : Salt) (id : ℕ) (username email password : String) (accounts after : Accounts secrets)
      (account : Account Hash)
      → ((h : Hash) → hash salt password ≡ some h → verify password h ≡ some true)
      → subject (create_token id username) ≡ some id
      → register secrets salt id username email password accounts ≡ (ok account, after)
      → (token : Token) × (login secrets username password after ≡ ok token)
        × (subject token ≡ some id)
  unfolding login
  login-register salt id username email password accounts after account verifies accepts e =
      let r = register-eq_ok salt id username email password accounts after account e in
      let new : Account Hash = record {
        id = id;
        username = username;
        email = email;
        password_hash = r.password_hash;
      } in
      let found : filterb (has_username secrets username) after ≡ new ∷ [] =
        ap (filterb (has_username secrets username)) r.result
        ∙ filterb-append (has_username secrets username) accounts (new ∷ [])
            (no_duplicate username email accounts r.was_free)
        ∙ filter_yes (has_username secrets username) new [] (eq_refl username) in
      (create_token id username, rw (found, verifies r.password_hash r.hashed) refl, accepts)
