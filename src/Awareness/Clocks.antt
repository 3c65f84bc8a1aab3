-- ===== src/Awareness/Clocks.antt =====
-- The clock rule of `AwarenessStore.apply_update` (presence.py): clocks only grow, to the largest clock
-- received, and an update that was applied once changes nothing when it comes again.
use Prim.Native.Nat.{max}
use mathlib.Core.Logic.{∥∥₁_elim}
use native.Mathlib.Nat.{ℕ_set}
use mathlib.Core.List.{Perm, Permᴰ}
use code_collaborator.Base.{
  ℕ, ◌≡◌, refl, ap, sym, ◌∙◌, arith, false, List, [], ◌∷◌, All, ◌==◌, if◌then◌else◌,
}
use code_collaborator.Base.Dict.{lookup, lookup-insert, lookup-insert_self, insert-insert}
use code_collaborator.Protocol.{AwarenessEntry}
use code_collaborator.Awareness.{
  AwarenessStore, States, current_clock, should_apply, stored, apply_entry, apply_entries,
  apply_update, states_of,
}

module _ {Text State : Type 0} where
  abbrev pub clock_of : ℕ → States Text State → ℕ
  clock_of c states = current_clock (lookup c states)

  -- The largest clock that the entries bring for a client, from a clock on.
  abbrev pub latest : ℕ → List (AwarenessEntry Text State) → ℕ → ℕ
  latest c [] k = k
  latest c (e ∷ es) k = latest c es (if e.client_id == c then max k e.clock else k)

  clock_of-apply_entry :
      (owner now c : ℕ) (e : AwarenessEntry Text State) (states : States Text State)
      → clock_of c (apply_entry owner now e states).0
        ≡ (if e.client_id == c then max (clock_of c states) e.clock else clock_of c states)
  unfolding apply_entry should_apply stored
  clock_of-apply_entry owner now c e states =
      ground (arith, lookup-insert e.client_id c (stored owner now e) states)

  clock_of-apply_entries :
      (owner now c : ℕ) (es : List (AwarenessEntry Text State)) (states : States Text State)
      → clock_of c (apply_entries owner now es states).0 ≡ latest c es (clock_of c states)
  unfolding apply_entries
  clock_of-apply_entries owner now c [] states = refl
  clock_of-apply_entries owner now c (e ∷ es) states =
      clock_of-apply_entries owner now c es (apply_entry owner now e states).0
      ∙ ap (latest c es) (clock_of-apply_entry owner now c e states)

  -- The clock rule has nothing left to do with an entry.
  abbrev IsSettled : States Text State → AwarenessEntry Text State → Type 0
  IsSettled states e = should_apply (lookup e.client_id states) e ≡ false

  apply_entry-IsSettled :
      (owner now : ℕ) (e : AwarenessEntry Text State) (states : States Text State)
      → IsSettled (apply_entry owner now e states).0 e
  unfolding apply_entry should_apply stored
  apply_entry-IsSettled owner now e states =
      ground (arith, lookup-insert e.client_id e.client_id (stored owner now e) states)

  IsSettled-apply_entry :
      (owner now : ℕ) (e d : AwarenessEntry Text State) (states : States Text State)
      → IsSettled states d
      → IsSettled (apply_entry owner now e states).0 d
  unfolding apply_entry should_apply stored
  IsSettled-apply_entry owner now e d states h =
      ground (arith, lookup-insert e.client_id d.client_id (stored owner now e) states)

  apply_entries-IsSettled :
      (owner now : ℕ) (es : List (AwarenessEntry Text State)) (d : AwarenessEntry Text State)
      (states : States Text State)
      → IsSettled states d
      → IsSettled (apply_entries owner now es states).0 d
  unfolding apply_entries
  apply_entries-IsSettled owner now [] d states h = h
  apply_entries-IsSettled owner now (e ∷ es) d states h =
      apply_entries-IsSettled owner now es d (apply_entry owner now e states).0
        (IsSettled-apply_entry owner now e d states h)

  All-IsSettled :
      (owner now : ℕ) (es : List (AwarenessEntry Text State)) (states : States Text State)
      → All (IsSettled (apply_entries owner now es states).0) es
  unfolding apply_entries
  All-IsSettled owner now [] states = tt
  All-IsSettled owner now (e ∷ es) states =
      let states' = (apply_entry owner now e states).0 in
      (
        apply_entries-IsSettled owner now es e states' (apply_entry-IsSettled owner now e states),
        All-IsSettled owner now es states',
      )

  apply_entries_settled :
      (owner now : ℕ) (es : List (AwarenessEntry Text State)) (states : States Text State)
      → All (IsSettled states) es
      → apply_entries owner now es states ≡ (states, [])
  unfolding apply_entries apply_entry
  apply_entries_settled owner now [] states h = refl
  apply_entries_settled owner now (e ∷ es) states h =
      rw (h.0, apply_entries_settled owner now es states h.1)

  -- An update that was applied once is idempotent: applied again to the store that it left, by any
  -- connection and at any time, it accepts nothing and changes nothing.
  pub apply_update-apply_update :
      (session owner owner' now now' : ℕ) (es : List (AwarenessEntry Text State))
      (store : AwarenessStore Text State)
      → let (store', _) = apply_update session owner es now store in
        apply_update session owner' es now' store' ≡ (store', [])
  unfolding apply_update
  apply_update-apply_update session owner owner' now now' es store =
      let states = states_of session store in
      let states' = (apply_entries owner now es states).0 in
      rw (
        lookup-insert_self session states' store.sessions,
        apply_entries_settled owner' now' es states' (All-IsSettled owner now es states),
        insert-insert session states' states' store.sessions,
      )

  latest-perm :
      (c : ℕ) {es ds : List (AwarenessEntry Text State)} (k : ℕ)
      → Permᴰ es ds
      → latest c es k ≡ latest c ds k
  latest-perm c k Permᴰ.nil = refl
  latest-perm c k (Permᴰ.cons {a = a} {b = b} same p) = rw same (latest-perm c _ p)
  latest-perm c k (Permᴰ.swap {a = a} {b = b} {l = l} p q) =
      rw (p, q) (ap (latest c l) (ground arith))
  latest-perm c k (Permᴰ.trans p q) = latest-perm c k p ∙ latest-perm c k q

  -- The clock that a store has for a client after an update is the largest of its own and those that
  -- the update brings for the client, so it does not depend on the order of the entries.
  pub apply_update_order :
      (session c owner now : ℕ) {es ds : List (AwarenessEntry Text State)}
      (store : AwarenessStore Text State)
      → Perm es ds
      → (clock_of c (states_of session (apply_update session owner es now store).0)
          ≡ latest c es (clock_of c (states_of session store)))
        × (clock_of c (states_of session (apply_update session owner ds now store).0)
            ≡ latest c es (clock_of c (states_of session store)))
  unfolding apply_update
  apply_update_order session c owner now {es} {ds} store same =
      let start = clock_of c (states_of session store) in
      let swapped : latest c ds start ≡ latest c es start =
        ∥∥₁_elim same (ℕ_set _ _) (λ p. sym (latest-perm c start p)) in
      (
        rw (lookup-insert_self session _ store.sessions) (clock_of-apply_entries owner now c es _),
        rw (lookup-insert_self session _ store.sessions)
            (clock_of-apply_entries owner now c ds _ ∙ swapped),
      )
