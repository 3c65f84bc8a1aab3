-- ===== src/Accounts/Conflicts.antt =====
-- Registrations that are refused (backend/app/auth/router.py).
use code_collaborator.Base.{
  ℕ, suc, Bool, true, false, ◌||◌, ◌∙◌, ap, ◌⊎◌, inl, inr, Bool-cases, ◌<◌, ◌≡◌, refl, arith, [],
  ◌∷◌, length, filterb, ◌==◌, if◌then◌else◌, Result, err,
}
use code_collaborator.Accounts.{
  Account, Secrets, scalar_one_or_none, Accounts, is_duplicate, registered, register,
}
use text.Mathlib.TextEquality.{eq_iff}
use Prim.Native.String.{String}

module _ (secrets : Secrets) where
  open secrets use {Hash, Salt}

  -- The answer for so many accounts that have the name or the address.
  abbrev pub refusal : ℕ → Result ℕ (Account Hash)
  refusal count = if count == 1 then err 409 else err 500

  with_rows :
      (salt : Salt) (id : ℕ) (username email password : String) (accounts rows : Accounts secrets)
      → 0 < length rows
      → registered secrets salt id username email password (scalar_one_or_none rows) accounts
        ≡ (refusal (length rows), accounts)
  with_rows salt id username email password accounts [] some_row = absurd (omega arith)
  with_rows salt id username email password accounts (a ∷ []) some_row = refl
  with_rows salt id username email password accounts (a ∷ b ∷ rest) some_row = ground arith

  -- The account has the name or the address.
  abbrev pub IsTaken : (username email : String) → Account Hash → Type 0
  IsTaken username email a = (a.username ≡ username) ⊎ (a.email ≡ email)

  or_true : (b : Bool) → (b || true) ≡ true
  or_true true = refl
  or_true false = refl

  taken-found :
      (username email : String) (a : Account Hash)
      → IsTaken username email a
      → is_duplicate secrets username email a ≡ true
  taken-found username email a (inl same_name) = rw ((eq_iff a.username username).1 same_name) refl
  taken-found username email a (inr same_address) =
      rw ((eq_iff a.email email).1 same_address) (or_true _)

  free-passed :
      (username email : String) (a : Account Hash)
      → ¬ IsTaken username email a
      → is_duplicate secrets username email a ≡ false
  free-passed username email a free =
      elim (Bool-cases (text.Mathlib.Text.◌==◌ a.username username)) [
        | inl same ↦ absurd (free (inl ((eq_iff a.username username).0 same)))
        | inr other_name ↦ elim (Bool-cases (text.Mathlib.Text.◌==◌ a.email email)) [
          | inl same ↦ absurd (free (inr ((eq_iff a.email email).0 same)))
          | inr other_address ↦ rw (other_name, other_address) refl
        ]
      ]

  -- So many of the accounts have the name or the address.
  pub data Holders (username email : String) : Accounts secrets → ℕ → Type 0 where
    nobody : Holders username email [] 0
    holder :
        {a : Account Hash} {rest : Accounts secrets} {n : ℕ}
        → IsTaken username email a
        → Holders username email rest n
        → Holders username email (a ∷ rest) (suc n)
    other :
        {a : Account Hash} {rest : Accounts secrets} {n : ℕ}
        → ¬ IsTaken username email a
        → Holders username email rest n
        → Holders username email (a ∷ rest) n

  rows-Holders :
      (username email : String) {accounts : Accounts secrets} {n : ℕ}
      → Holders username email accounts n
      → length (filterb (is_duplicate secrets username email) accounts) ≡ n
  rows-Holders username email nobody = refl
  rows-Holders username email (holder {a = a} taken rest) =
      rw (taken-found username email a taken, filterb) (ap suc (rows-Holders username email rest))
  rows-Holders username email (other {a = a} free rest) =
      rw (free-passed username email a free, filterb) (rows-Holders username email rest)

  -- A registration with a name or an address that `count` accounts have, at least one, changes nothing. It
  -- is answered with 409 when that is one account, and with 500 when it is more, as when the name is that
  -- of one account and the address that of another.
  pub register_refused :
      (salt : Salt) (id : ℕ) (username email password : String) (accounts : Accounts secrets)
      (count : ℕ)
      → Holders username email accounts count
      → 0 < count
      → register secrets salt id username email password accounts ≡ (refusal count, accounts)
  unfolding register
  register_refused salt id username email password accounts count holders some_holder =
      let rows = filterb (is_duplicate secrets username email) accounts in
      let counted = rows-Holders username email holders in
      with_rows salt id username email password accounts rows (omega (arith, counted, some_holder))
      ∙ ap (λ (n : ℕ). (refusal n, accounts)) counted
