-- ===== src/Awareness/Invariant.antt =====
-- The well-formedness of an `AwarenessStore` (presence.py), which every operation keeps.
use code_collaborator.Base.{
  ℕ, ◌≡◌, refl, arith, Bool, List, [], ◌∷◌, All, none, inl, inr, Bool-cases, Option-cases,
}
use code_collaborator.Base.Dict.{
  IsDict, insert-IsDict, erase-IsDict, insert-All, erase-All, lookup-All, lookup, insert,
}
use code_collaborator.Protocol.{AwarenessEntry}
use code_collaborator.Awareness.{
  StoredAwareness, AwarenessStore, States, should_apply, stored, apply_entry, apply_entries,
  apply_update, states_of, or_empty, removal, retire, retire_session, keeps_owner, keeps_fresh,
  remove_owner, prune_stale, discard_session,
}
use code_collaborator.Awareness.Removal.{apply_entries-IsDict}

module _ {Text State : Type 0} where
  -- An entry is stored under its own client id.
  abbrev pub IsKeyed : ℕ × StoredAwareness Text State → Type 0
  IsKeyed (c, s) = s.entry.client_id ≡ c

  abbrev pub IsWellKept : States Text State → Type 0
  IsWellKept states = IsDict states × All IsKeyed states

  -- Each session has one dict of states, with distinct client ids, each the id of its entry.
  pub record IsValid (store : AwarenessStore Text State) : Type 0 where
    pub sessions_distinct : IsDict store.sessions
    pub states_kept : All (λ (p : ℕ × States Text State). IsWellKept p.1) store.sessions

  pub states_of-IsWellKept :
      (session : ℕ) (store : AwarenessStore Text State)
      → IsValid store
      → IsWellKept (states_of session store)
  states_of-IsWellKept session store v = elim (Option-cases (lookup session store.sessions)) [
    | inl absent ↦ rw (absent, or_empty) (tt, tt)
    | inr (states, present) ↦
        rw (present, or_empty)
          (lookup-All (λ (p : ℕ × States Text State). IsWellKept p.1) session store.sessions
            v.states_kept present)
  ]

  replace-IsValid :
      (session : ℕ) (states : States Text State) (store : AwarenessStore Text State)
      → IsWellKept states
      → IsValid store
      → IsValid (record store { sessions = insert session states store.sessions })
  replace-IsValid session states store kept v = record {
    sessions_distinct = insert-IsDict session states store.sessions v.sessions_distinct;
    states_kept = insert-All _ session states store.sessions kept v.states_kept;
  }

  apply_entry-IsKeyed :
      (owner now : ℕ) (e : AwarenessEntry Text State) (states : States Text State)
      → All IsKeyed states
      → All IsKeyed (apply_entry owner now e states).0
  unfolding apply_entry stored
  apply_entry-IsKeyed owner now e states h =
      elim (Bool-cases (should_apply (lookup e.client_id states) e)) [
        | inl news ↦ rw news (insert-All IsKeyed e.client_id (stored owner now e) states refl h)
        | inr old ↦ rw old h
      ]

  apply_entries-IsKeyed :
      (owner now : ℕ) (es : List (AwarenessEntry Text State)) (states : States Text State)
      → All IsKeyed states
      → All IsKeyed (apply_entries owner now es states).0
  unfolding apply_entries
  apply_entries-IsKeyed owner now [] states h = h
  apply_entries-IsKeyed owner now (e ∷ es) states h =
      apply_entries-IsKeyed owner now es (apply_entry owner now e states).0
        (apply_entry-IsKeyed owner now e states h)

  module _ (null_text : Text) (keeps : StoredAwareness Text State → Bool) (now : ℕ) where
    retire-absent :
        (c : ℕ) (states : States Text State)
        → lookup c states ≡ none
        → lookup c (retire null_text keeps now states).0 ≡ none
    unfolding retire
    retire-absent c [] absent = refl
    retire-absent c ((j, s) ∷ states) absent = ground (arith, retire-absent c states)

    retire-IsWellKept :
        (states : States Text State)
        → IsWellKept states
        → IsWellKept (retire null_text keeps now states).0
    unfolding retire removal
    retire-IsWellKept [] h = h
    retire-IsWellKept ((j, s) ∷ states) (distinct, keyed) =
        let (rest_distinct, rest_keyed) = retire-IsWellKept states (distinct.1, keyed.1) in
        let absent = retire-absent j states distinct.0 in
        elim (Bool-cases (keeps s)) [
          | inl spared ↦ rw spared ((absent, rest_distinct), (keyed.0, rest_keyed))
          | inr gone ↦ rw gone ((absent, rest_distinct), (refl, rest_keyed))
        ]

    retire_session-IsValid :
        (session : ℕ) (store : AwarenessStore Text State)
        → IsValid store
        → IsValid (retire_session null_text keeps session now store).0
    unfolding retire_session
    retire_session-IsValid session store v = elim (Option-cases (lookup session store.sessions)) [
      | inl absent ↦ rw (absent, retire_session) v
      | inr (states, present) ↦
          rw (present, retire_session)
            (replace-IsValid session (retire null_text keeps now states).0 store
              (retire-IsWellKept states (
                lookup-All (λ (p : ℕ × States Text State). IsWellKept p.1) session store.sessions
                  v.states_kept present))
              v)
    ]

  -- Every operation keeps a store well formed: one dict of states for each session, each client id once
  -- in it, and each entry under its own client id.
  pub operations-IsValid :
      (null_text : Text) (session owner now : ℕ) (es : List (AwarenessEntry Text State))
      (store : AwarenessStore Text State)
      → IsValid store
      → IsValid (apply_update session owner es now store).0
        × IsValid (remove_owner null_text session owner now store).0
        × IsValid (prune_stale null_text session now store).0
        × IsValid (discard_session session store)
  unfolding apply_update remove_owner prune_stale discard_session
  operations-IsValid null_text session owner now es store v =
      let kept = states_of-IsWellKept session store v in
      (
        replace-IsValid session (apply_entries owner now es (states_of session store)).0 store
            (
              apply_entries-IsDict owner now es _ kept.0,
              apply_entries-IsKeyed owner now es _ kept.1,
            )
            v,
        retire_session-IsValid null_text (keeps_owner owner) now session store v,
        retire_session-IsValid null_text (keeps_fresh store.stale_timeout now) now session store v,
        record {
          sessions_distinct = erase-IsDict session store.sessions v.sessions_distinct;
          states_kept = erase-All _ session store.sessions v.states_kept;
        },
      )
