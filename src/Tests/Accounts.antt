-- ===== src/Tests/Accounts.antt =====
-- Accounts of backend/app/auth/router.py, with passwords that are their own hashes.
use code_collaborator.Base.{ℕ, ◌≡◌, refl, ap, subst, arith, inl, inr, true, some, [], ◌∷◌, ok, err}
use code_collaborator.Accounts.{Account, Secrets, register, login}
use code_collaborator.Accounts.Login.{login-register}
use code_collaborator.Accounts.Conflicts.{nobody, holder, register_refused}
use text.Mathlib.Text.{◌==◌}
use text.Mathlib.TextPositions.{eq_refl}
use Prim.Native.String.{String}

abbrev secrets : Secrets
secrets = record {
  Hash = String;
  Salt = ℕ;
  Token = ℕ;
  hash = λ salt password. some password;
  verify = λ password h. some (password == h);
  create_token = λ id username. id;
  subject = λ token. some token;
}

abbrev ada : Account String
ada = record { id = 1; username = "ada"; email = "ada@example.org"; password_hash = "secret" }

abbrev bob : Account String
bob = record { id = 2; username = "bob"; email = "bob@example.org"; password_hash = "hunter" }

bob_registers :
    register secrets 0 2 "bob" "bob@example.org" "hunter" (ada ∷ []) ≡ (ok bob, ada ∷ bob ∷ [])
unfolding register
bob_registers = refl

verifies : (h : String) → some "hunter" ≡ some h → some ("hunter" == h) ≡ some true
verifies h e =
    let same : "hunter" ≡ h = cc e in
    ap some (subst (λ (t : String). ("hunter" == t) ≡ true) same (eq_refl "hunter"))

login-register_example :
    (token : ℕ) × (login secrets "bob" "hunter" (ada ∷ bob ∷ []) ≡ ok token) × (some token ≡ some 2)
login-register_example =
    login-register secrets 0 2 "bob" "bob@example.org" "hunter" (ada ∷ []) (ada ∷ bob ∷ []) bob
      verifies refl bob_registers

-- The name of one account and the address of another.
register_refused_example :
    register secrets 0 3 "ada" "bob@example.org" "letmein" (ada ∷ bob ∷ [])
    ≡ (err 500, ada ∷ bob ∷ [])
register_refused_example =
    register_refused secrets 0 3 "ada" "bob@example.org" "letmein" (ada ∷ bob ∷ []) 2
      (holder (inl refl) (holder (inr refl) nobody)) (omega arith)
