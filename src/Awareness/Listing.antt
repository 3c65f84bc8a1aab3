-- ===== src/Awareness/Listing.antt =====
-- `AwarenessStore.active_entries` (presence.py): the active states of a session in client-id order.
use code_collaborator.Base.{
  ℕ, ◌≤◌, sym, subst, arith, List, [], ◌∷◌, All, All-map, inl, inr, Bool-cases, leb,
}
use mathlib.Core.List.{Perm, Permᴰ, Perm-prop}
use mathlib.Core.List.Perm
use mathlib.Core.Logic.{∥∥₁_elim}
use code_collaborator.Protocol.{AwarenessEntry}
use code_collaborator.Awareness.{
  StoredAwareness, AwarenessStore, States, is_active, states_of, insert_sorted, sort_items,
  active_only, active_entries,
}
use code_collaborator.Awareness.Invariant.{IsKeyed, IsValid, states_of-IsWellKept}

module _ {Text State : Type 0} where
  insert_sorted-perm :
      (x : ℕ × StoredAwareness Text State) (xs : States Text State)
      → Perm (insert_sorted x xs) (x ∷ xs)
  unfolding insert_sorted
  insert_sorted-perm x [] = Perm.refl _
  insert_sorted-perm x (y ∷ ys) = elim (Bool-cases (leb x.0 y.0)) [
    | inl before ↦ rw before (Perm.refl _)
    | inr after ↦ rw after (Perm.trans (Perm.cons y (insert_sorted-perm x ys)) (Perm.swap x y ys))
  ]

  sort_items-perm : (xs : States Text State) → Perm (sort_items xs) xs
  unfolding sort_items
  sort_items-perm [] = Perm.refl _
  sort_items-perm (x ∷ xs) =
      Perm.trans (insert_sorted-perm x (sort_items xs)) (Perm.cons x (sort_items-perm xs))

  active_only-swap :
      (x y : ℕ × StoredAwareness Text State) (l : States Text State)
      → Perm (active_only (x ∷ y ∷ l)) (active_only (y ∷ x ∷ l))
  unfolding active_only
  active_only-swap x y l = elim (Bool-cases (is_active (x.1).entry)) [
    | inl ex ↦ elim (Bool-cases (is_active (y.1).entry)) [
      | inl ey ↦ rw (ex, ey) (Perm.swap _ _ _)
      | inr ny ↦ rw (ex, ny) (Perm.refl _)
    ]
    | inr nx ↦ elim (Bool-cases (is_active (y.1).entry)) [
      | inl ey ↦ rw (nx, ey) (Perm.refl _)
      | inr ny ↦ rw (nx, ny) (Perm.refl _)
    ]
  ]

  active_only-permᴰ :
      {xs ys : States Text State} → Permᴰ xs ys → Perm (active_only xs) (active_only ys)
  unfolding active_only
  active_only-permᴰ Permᴰ.nil = Perm.refl _
  active_only-permᴰ (Permᴰ.cons {a = a} {b = b} same p) =
      rw same (elim (Bool-cases (is_active (b.1).entry)) [
        | inl active ↦ rw active (Perm.cons _ (active_only-permᴰ p))
        | inr gone ↦ rw gone (active_only-permᴰ p)
      ])
  active_only-permᴰ (Permᴰ.swap {a' = a'} {b' = b'} {l = l} p q) =
      rw (p, q) (active_only-swap b' a' l)
  active_only-permᴰ (Permᴰ.trans p q) = Perm.trans (active_only-permᴰ p) (active_only-permᴰ q)

  -- No key of the items lies below a bound.
  abbrev KeysFrom : ℕ → States Text State → Type 0
  KeysFrom k = All (λ x. k ≤ x.0)

  abbrev IsSortedItems : States Text State → Type 0
  IsSortedItems [] = Unit
  IsSortedItems (x ∷ xs) = KeysFrom x.0 xs × IsSortedItems xs

  insert_sorted-KeysFrom :
      (k : ℕ) (x : ℕ × StoredAwareness Text State) (xs : States Text State)
      → k ≤ x.0
      → KeysFrom k xs
      → KeysFrom k (insert_sorted x xs)
  unfolding insert_sorted
  insert_sorted-KeysFrom k x [] h hs = (h, tt)
  insert_sorted-KeysFrom k x (y ∷ ys) h hs = elim (Bool-cases (leb x.0 y.0)) [
    | inl before ↦ rw before (h, hs)
    | inr after ↦ rw after (hs.0, insert_sorted-KeysFrom k x ys h hs.1)
  ]

  insert_sorted-IsSortedItems :
      (x : ℕ × StoredAwareness Text State) (xs : States Text State)
      → IsSortedItems xs
      → IsSortedItems (insert_sorted x xs)
  unfolding insert_sorted
  insert_sorted-IsSortedItems x [] h = (tt, tt)
  insert_sorted-IsSortedItems x (y ∷ ys) h = elim (Bool-cases (leb x.0 y.0)) [
    | inl before ↦
        rw before (
          (ground arith, All-map (λ z. y.0 ≤ z.0) (λ z. x.0 ≤ z.0) ys (λ z le. ground arith) h.0),
          h,
        )
    | inr after ↦
        rw after
          (insert_sorted-KeysFrom y.0 x ys (ground arith) h.0, insert_sorted-IsSortedItems x ys h.1)
  ]

  sort_items-IsSortedItems : (xs : States Text State) → IsSortedItems (sort_items xs)
  unfolding sort_items
  sort_items-IsSortedItems [] = tt
  sort_items-IsSortedItems (x ∷ xs) =
      insert_sorted-IsSortedItems x (sort_items xs) (sort_items-IsSortedItems xs)

  insert_sorted-IsKeyed :
      (x : ℕ × StoredAwareness Text State) (xs : States Text State)
      → IsKeyed x
      → All IsKeyed xs
      → All IsKeyed (insert_sorted x xs)
  unfolding insert_sorted
  insert_sorted-IsKeyed x [] h hs = (h, tt)
  insert_sorted-IsKeyed x (y ∷ ys) h hs = elim (Bool-cases (leb x.0 y.0)) [
    | inl before ↦ rw before (h, hs)
    | inr after ↦ rw after (hs.0, insert_sorted-IsKeyed x ys h hs.1)
  ]

  sort_items-IsKeyed : (xs : States Text State) → All IsKeyed xs → All IsKeyed (sort_items xs)
  unfolding sort_items
  sort_items-IsKeyed [] h = tt
  sort_items-IsKeyed (x ∷ xs) h =
      insert_sorted-IsKeyed x (sort_items xs) h.0 (sort_items-IsKeyed xs h.1)

  -- The entries are in the order of their client ids.
  abbrev pub IsSortedEntries : List (AwarenessEntry Text State) → Type 0
  IsSortedEntries [] = Unit
  IsSortedEntries (e ∷ es) = All (λ d. e.client_id ≤ d.client_id) es × IsSortedEntries es

  active_only-from :
      (k : ℕ) (xs : States Text State)
      → All IsKeyed xs
      → KeysFrom k xs
      → All (λ e. k ≤ e.client_id) (active_only xs)
  unfolding active_only
  active_only-from k [] keyed h = tt
  active_only-from k (x ∷ xs) keyed h = elim (Bool-cases (is_active (x.1).entry)) [
    | inl active ↦ rw active (omega (arith, keyed.0, h.0), active_only-from k xs keyed.1 h.1)
    | inr gone ↦ rw gone (active_only-from k xs keyed.1 h.1)
  ]

  active_only-IsSortedEntries :
      (xs : States Text State)
      → All IsKeyed xs
      → IsSortedItems xs
      → IsSortedEntries (active_only xs)
  unfolding active_only
  active_only-IsSortedEntries [] keyed h = tt
  active_only-IsSortedEntries (x ∷ xs) keyed h = elim (Bool-cases (is_active (x.1).entry)) [
    | inl active ↦ rw active (
      subst (λ (k : ℕ). All (λ d. k ≤ d.client_id) (active_only xs)) (sym keyed.0)
          (active_only-from x.0 xs keyed.1 h.0),
      active_only-IsSortedEntries xs keyed.1 h.1,
    )
    | inr gone ↦ rw gone (active_only-IsSortedEntries xs keyed.1 h.1)
  ]

  -- In a well-formed store `active_entries` lists the active entries of the session, each as often as it
  -- is stored, in the order of their client ids.
  pub active_entries-IsSortedEntries :
      (session : ℕ) (store : AwarenessStore Text State)
      → IsValid store
      → IsSortedEntries (active_entries session store)
        × Perm (active_entries session store) (active_only (states_of session store))
  unfolding active_entries
  active_entries-IsSortedEntries session store v =
      let states = states_of session store in
      let kept = states_of-IsWellKept session store v in
      (
        active_only-IsSortedEntries (sort_items states) (sort_items-IsKeyed states kept.1)
            (sort_items-IsSortedItems states),
        ∥∥₁_elim (sort_items-perm states) Perm-prop active_only-permᴰ,
      )
