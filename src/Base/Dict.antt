-- ===== src/Base/Dict.antt =====
-- A Python dict keyed by numbers, in insertion order.
use Prim.Native.Nat.{ℕ}
use mathlib.Core.Path.{◌≡◌, refl, sym, subst}
use mathlib.Core.Logic.{inl, inr}
use mathlib.Core.Option.{Option, none, some}
use mathlib.Core.List.{List, [], ◌∷◌}
use native.Mathlib.Omega.{arith}
use code_collaborator.Base.Lists.{All}
use code_collaborator.Base.Tests.{◌==◌, ==_iff, Bool-cases, if◌then◌else◌}

abbrev pub Dict {ℓ} : Type ℓ → Type ℓ
Dict V = List (ℕ × V)

module _ {ℓ} {V : Type ℓ} where
  -- `d.get(k)`
  abbrev pub lookup : ℕ → Dict V → Option V
  lookup k [] = none
  lookup k ((j, v) ∷ d) = if j == k then some v else lookup k d

  -- `d.pop(k, None)`: the keys of a dict are distinct, so it drops every entry of the key.
  abbrev pub erase : ℕ → Dict V → Dict V
  erase k [] = []
  erase k ((j, v) ∷ d) = if j == k then erase k d else (j, v) ∷ erase k d

  pub lookup-erase :
      (k j : ℕ) (d : Dict V) → lookup j (erase k d) ≡ (if k == j then none else lookup j d)
  lookup-erase k j [] = ground arith
  lookup-erase k j ((i, w) ∷ d) = ground (arith, lookup-erase k j d)

  -- `d[k] = v`
  abbrev pub insert : ℕ → V → Dict V → Dict V
  insert k v [] = (k, v) ∷ []
  insert k v ((j, w) ∷ d) = if j == k then (j, v) ∷ d else (j, w) ∷ insert k v d

  pub lookup-insert :
      (key other : ℕ) (new : V) (d : Dict V)
      → lookup other (insert key new d) ≡ (if key == other then some new else lookup other d)
  lookup-insert k j v [] = refl
  lookup-insert k j v ((i, w) ∷ d) = ground (arith, lookup-insert k j v d)

  pub lookup-insert_self : (k : ℕ) (v : V) (d : Dict V) → lookup k (insert k v d) ≡ some v
  lookup-insert_self k v d = ground (arith, lookup-insert k k v d)

  pub insert-insert : (k : ℕ) (v w : V) (d : Dict V) → insert k w (insert k v d) ≡ insert k w d
  insert-insert k v w [] = ground arith
  insert-insert k v w ((j, u) ∷ d) = ground (arith, insert-insert k v w d)

  -- No key stands twice.
  abbrev pub IsDict : Dict V → Type ℓ
  IsDict [] = Unit {ℓ}
  IsDict ((k, v) ∷ d) = (lookup k d ≡ none) × IsDict d

  pub insert-IsDict : (k : ℕ) (v : V) (d : Dict V) → IsDict d → IsDict (insert k v d)
  insert-IsDict k v [] h = (refl, tt)
  insert-IsDict k v ((j, w) ∷ d) h = ground (arith, insert-IsDict k v d h.1, lookup-insert k j v d)

  pub erase-IsDict : (k : ℕ) (d : Dict V) → IsDict d → IsDict (erase k d)
  erase-IsDict k [] h = tt
  erase-IsDict k ((j, w) ∷ d) h = ground (arith, erase-IsDict k d h.1, lookup-erase k j d)

  -- A predicate of the entries survives an update that has it, and a removal.
  pub insert-All {κ} :
      (P : ℕ × V → Type κ) (k : ℕ) (v : V) (d : Dict V) → P (k, v) → All P d → All P (insert k v d)
  insert-All P k v [] p h = (p, tt)
  insert-All P k v ((j, w) ∷ d) p h = elim (Bool-cases (j == k)) [
    | inl same ↦ rw same (subst (λ (i : ℕ). P (i, v)) (sym ((==_iff j k).0 same)) p, h.1)
    | inr other ↦ rw other (h.0, insert-All P k v d p h.1)
  ]

  pub erase-All {κ} : (P : ℕ × V → Type κ) (k : ℕ) (d : Dict V) → All P d → All P (erase k d)
  erase-All P k [] h = tt
  erase-All P k ((j, w) ∷ d) h = elim (Bool-cases (j == k)) [
    | inl same ↦ rw same (erase-All P k d h.1)
    | inr other ↦ rw other (h.0, erase-All P k d h.1)
  ]

  pub lookup-All {κ} :
      (P : ℕ × V → Type κ) (k : ℕ) (d : Dict V) {v : V} → All P d → lookup k d ≡ some v → P (k, v)
  lookup-All P k [] h e = cc
  lookup-All P k ((j, w) ∷ d) {v} h e = elim (Bool-cases (j == k)) [
    | inl same ↦
        let here : w ≡ v = ground arith in
        subst (λ (i : ℕ). P (i, v)) ((==_iff j k).0 same) (subst (λ x. P (j, x)) here h.0)
    | inr other ↦ lookup-All P k d h.1 (ground arith)
  ]
