-- ===== src/Worker/Output/Limits.antt =====
-- What the limits of backend/app/execution/worker.py let through.
use code_collaborator.Base.{
  ℕ, zero, suc, ◌-◌, ◌≤◌, ◌≡◌, refl, ◌∙◌, ap, ap₂, arith, List, [], ◌∷◌, ◌++◌, append-nil, length,
  take, ltb, length-append, length-take, Bool-cases, inl, inr,
}
use code_collaborator.Lib0.{Bytes}
use code_collaborator.Worker.Output.{suffix, bounded, Published, printed, notice}
use code_collaborator.Worker.Output.Accepted.{take-append}

module _ {Text : Type 0} (decode : Bytes → Text) where
  abbrev decoded : List (Published Bytes) → List (Published Text)
  decoded [] = []
  decoded (printed stream bytes ∷ events) = printed stream (decode bytes) ∷ decoded events
  decoded (notice stream ∷ events) = notice stream ∷ decoded events

take-take : (n : ℕ) (xs : Bytes) → take n (take n xs) ≡ take n xs
take-take zero xs = refl
take-take (suc n) [] = refl
take-take (suc n) (x ∷ xs) = ap (λ (l : Bytes). x ∷ l) (take-take n xs)

take_prefix : (n : ℕ) (xs ys : Bytes) → n ≤ length xs → take n (take n xs ++ ys) ≡ take n xs
take_prefix n xs ys h =
    let spent : n - length (take n xs) ≡ 0 = omega (arith, length-take n xs) in
    take-append n (take n xs) ys
    ∙ ap₂ (λ (a b : Bytes). a ++ b) (take-take n xs) (ap (λ (k : ℕ). take k ys) spent)
    ∙ append-nil (take n xs)

-- The stored output has at most `limit` bytes, where the limit has room for the notice, and agrees with
-- what was printed on all bytes but the last 20 of the limit.
pub bounded_lem :
    (limit : ℕ) (bytes : Bytes)
    → length suffix ≤ limit
    → (length (bounded limit bytes) ≤ limit)
      × (take (limit - length suffix) (bounded limit bytes) ≡ take (limit - length suffix) bytes)
unfolding bounded
bounded_lem limit bytes room = elim (Bool-cases (ltb limit (length bytes))) [
  | inl large ↦ rw large (
    omega (arith, length-append (take (limit - 20) bytes) suffix, length-take (limit - 20) bytes),
    take_prefix (limit - 20) bytes suffix (ground arith),
  )
  | inr small ↦ rw small (ground arith, refl)
]
