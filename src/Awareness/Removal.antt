-- ===== src/Awareness/Removal.antt =====
-- `AwarenessStore.remove_owner` and `prune_stale` (presence.py): what becomes of each client's state, and
-- that peers accept every removal that is broadcast.
use code_collaborator.Base.{
  ℕ, ◌≤◌, ◌<◌, ◌+◌, ◌≡◌, refl, ap, sym, ◌∙◌, arith, Bool, true, false, ◌&&◌, List, [], ◌∷◌, All,
  ◌==◌, if◌then◌else◌, inl, inr, Bool-cases, none, some, Option, Option-cases,
}
use code_collaborator.Base.Dict.{
  IsDict, insert-IsDict, lookup, insert, lookup-insert, lookup-insert_self,
}
use code_collaborator.Protocol.{AwarenessEntry}
use code_collaborator.Awareness.{
  StoredAwareness, AwarenessStore, States, is_active, should_apply, stored, apply_entry,
  apply_entries, apply_update, states_of, owned_by, removal, retire, retire_session, keeps_owner,
  keeps_fresh, remove_owner, prune_stale,
}

module _ {Text State : Type 0} where
  pub apply_entries-IsDict :
      (owner now : ℕ) (es : List (AwarenessEntry Text State)) (states : States Text State)
      → IsDict states
      → IsDict (apply_entries owner now es states).0
  unfolding apply_entries apply_entry
  apply_entries-IsDict owner now [] states h = h
  apply_entries-IsDict owner now (e ∷ es) states h =
      apply_entries-IsDict owner now es (apply_entry owner now e states).0
        (ground (arith, insert-IsDict e.client_id (stored owner now e) states h))

  module _ (null_text : Text) where
    -- The state of a client after a removal that spares some.
    abbrev pub retired :
        (StoredAwareness Text State → Bool)
        → ℕ
        → ℕ
        → StoredAwareness Text State
        → StoredAwareness Text State
    retired keeps now c s =
        if keeps s
        then s
        else record { entry = removal null_text c s; owner = none; last_seen = now }

    abbrev pub retired_state :
        (StoredAwareness Text State → Bool)
        → ℕ
        → ℕ
        → Option (StoredAwareness Text State)
        → Option (StoredAwareness Text State)
    retired_state keeps now c none = none
    retired_state keeps now c (some s) = some (retired keeps now c s)

    lookup-retire :
        (keeps : StoredAwareness Text State → Bool) (now c : ℕ) (states : States Text State)
        → lookup c (retire null_text keeps now states).0
          ≡ retired_state keeps now c (lookup c states)
    unfolding retire removal
    lookup-retire keeps now c [] = refl
    lookup-retire keeps now c ((j, s) ∷ states) = ground (arith, lookup-retire keeps now c states)

    lookup-retire_session :
        (keeps : StoredAwareness Text State → Bool) (session now c : ℕ)
        (store : AwarenessStore Text State)
        → lookup c (states_of session (retire_session null_text keeps session now store).0)
          ≡ retired_state keeps now c (lookup c (states_of session store))
    unfolding retire_session
    lookup-retire_session keeps session now c store =
        elim (Option-cases (lookup session store.sessions)) [
          | inl absent ↦ rw (absent, retire_session) (rw absent)
          | inr (states, present) ↦
              rw (present, retire_session)
                (rw
                  (lookup-insert_self session (retire null_text keeps now states).0 store.sessions)
                  (rw (lookup-retire keeps now c states)))
        ]

    -- When a connection leaves a session, each client state that it owns and that is active becomes a
    -- removal with the clock that it had; all other states of the session stay as they were, and no
    -- active state of that connection is left.
    pub remove_owner_lem :
        (session owner now c : ℕ) (store : AwarenessStore Text State)
        → (lookup c (states_of session (remove_owner null_text session owner now store).0)
            ≡ retired_state (keeps_owner owner) now c (lookup c (states_of session store)))
          × ((s : StoredAwareness Text State)
              → lookup c (states_of session (remove_owner null_text session owner now store).0)
                ≡ some s
              → owned_by owner s && is_active s.entry ≡ false)
    unfolding remove_owner
    remove_owner_lem session owner now c store =
        let effect = lookup-retire_session (keeps_owner owner) session now c store in
        (effect, λ s found. cleared (lookup c (states_of session store)) s (sym effect ∙ found))
      where
        cleared :
            (before : Option (StoredAwareness Text State)) (s : StoredAwareness Text State)
            → retired_state (keeps_owner owner) now c before ≡ some s
            → owned_by owner s && is_active s.entry ≡ false
        cleared none s e = cc
        cleared (some b) s e = ground arith

    -- What becomes of one client's state when the stale ones of its session are pruned: a state without
    -- content, or one that was seen within the timeout, is as before; any other loses its content and
    -- its owner, keeps its clock, and counts as seen now.
    pub record IsPruned (timeout now : ℕ) (before after : StoredAwareness Text State) : Type 0 where
      pub keeps_empty : before.entry.state ≡ none → after ≡ before
      pub keeps_fresh_state : now ≤ before.last_seen + timeout → after ≡ before
      pub removes_stale :
          (content : State)
          → before.entry.state ≡ some content
          → before.last_seen + timeout < now
          → (after.entry.state ≡ none)
            × (after.entry.clock ≡ before.entry.clock)
            × (after.owner ≡ none)
            × (after.last_seen ≡ now)

    retired-IsPruned :
        (timeout now c : ℕ) (s : StoredAwareness Text State)
        → IsPruned timeout now s (retired (keeps_fresh timeout now) now c s)
    unfolding removal
    retired-IsPruned timeout now c s = record {
      keeps_empty = λ empty. ground (arith, empty);
      keeps_fresh_state = λ fresh. ground (arith, fresh);
      removes_stale = λ content has stale.
          let gone : keeps_fresh timeout now s ≡ false = ground (arith, has, stale) in
          rw gone (refl, refl, refl, refl);
    }

    -- Pruning the stale states of a session: a client that has no state gets none, and each client that
    -- has one still has a state, which is as before if it was empty or was seen within the timeout, and
    -- is otherwise a removal with the clock that it had, without an owner and seen now.
    pub prune_stale_lem :
        (session now c : ℕ) (store : AwarenessStore Text State)
        → let store' = (prune_stale null_text session now store).0 in
          (lookup c (states_of session store) ≡ none → lookup c (states_of session store') ≡ none)
          × ((before : StoredAwareness Text State)
              → lookup c (states_of session store) ≡ some before
              → (after : StoredAwareness Text State) × (lookup c (states_of session store')
                  ≡ some after)
                × IsPruned store.stale_timeout now before after)
    unfolding prune_stale
    prune_stale_lem session now c store =
        let keeps = keeps_fresh store.stale_timeout now in
        let effect = lookup-retire_session keeps session now c store in
        (
          λ absent. effect ∙ ap (retired_state keeps now c) absent,
          λ before found. (
            retired keeps now c before,
            effect ∙ ap (retired_state keeps now c) found,
            retired-IsPruned store.stale_timeout now c before,
          ),
        )

    -- Every client of the entries is some other one.
    abbrev IsOther : ℕ → List (AwarenessEntry Text State) → Type 0
    IsOther c es = All (λ e. (c == e.client_id) ≡ false) es

    abbrev HasDistinctClients : List (AwarenessEntry Text State) → Type 0
    HasDistinctClients [] = Unit
    HasDistinctClients (e ∷ es) = IsOther e.client_id es × HasDistinctClients es

    abbrev IsNews : States Text State → AwarenessEntry Text State → Type 0
    IsNews states e = should_apply (lookup e.client_id states) e ≡ true

    IsNews-insert :
        (c : ℕ) (s : StoredAwareness Text State) (states : States Text State)
        (es : List (AwarenessEntry Text State))
        → IsOther c es
        → All (IsNews states) es
        → All (IsNews (insert c s states)) es
    IsNews-insert c s states [] other news = tt
    IsNews-insert c s states (e ∷ es) other news = (
      rw (lookup-insert c e.client_id s states, other.0) news.0,
      IsNews-insert c s states es other.1 news.1,
    )

    -- News about distinct clients are all accepted.
    apply_entries-IsNews :
        (owner now : ℕ) (es : List (AwarenessEntry Text State)) (states : States Text State)
        → HasDistinctClients es
        → All (IsNews states) es
        → (apply_entries owner now es states).1 ≡ es
    unfolding apply_entries apply_entry
    apply_entries-IsNews owner now [] states distinct news = refl
    apply_entries-IsNews owner now (e ∷ es) states distinct news = rw news.0 (
        ap (λ l. e ∷ l)
          (apply_entries-IsNews owner now es (insert e.client_id (stored owner now e) states)
            distinct.1 (IsNews-insert e.client_id _ states es distinct.0 news.1)))

    -- A test that removes only active states.
    abbrev RemovesActive : (StoredAwareness Text State → Bool) → Type 0
    RemovesActive keeps =
        (s : StoredAwareness Text State) → keeps s ≡ false → is_active s.entry ≡ true

    module _ (keeps : StoredAwareness Text State → Bool) (now : ℕ) where
      retire-IsOther :
          (c : ℕ) (states : States Text State)
          → lookup c states ≡ none
          → IsOther c (retire null_text keeps now states).1
      unfolding retire removal
      retire-IsOther c [] absent = tt
      retire-IsOther c ((j, s) ∷ states) absent = elim (Bool-cases (keeps s)) [
        | inl spared ↦ rw spared (retire-IsOther c states (ground arith))
        | inr gone ↦ rw gone (ground arith, retire-IsOther c states (ground arith))
      ]

      retire-HasDistinctClients :
          (states : States Text State)
          → IsDict states
          → HasDistinctClients (retire null_text keeps now states).1
      unfolding retire removal
      retire-HasDistinctClients [] h = tt
      retire-HasDistinctClients ((j, s) ∷ states) h = elim (Bool-cases (keeps s)) [
        | inl spared ↦ rw spared (retire-HasDistinctClients states h.1)
        | inr gone ↦ rw gone (retire-IsOther j states h.0, retire-HasDistinctClients states h.1)
      ]

      IsNews-cons :
          (j : ℕ) (s : StoredAwareness Text State) (states : States Text State)
          (es : List (AwarenessEntry Text State))
          → IsOther j es
          → All (IsNews states) es
          → All (IsNews ((j, s) ∷ states)) es
      IsNews-cons j s states [] other news = tt
      IsNews-cons j s states (e ∷ es) other news =
          (rw other.0 news.0, IsNews-cons j s states es other.1 news.1)

      removal-IsNews :
          (j : ℕ) (s : StoredAwareness Text State) (states : States Text State)
          → is_active s.entry ≡ true
          → IsNews ((j, s) ∷ states) (removal null_text j s)
      unfolding should_apply removal
      removal-IsNews j s states active = ground arith

      retire-IsNews :
          (states : States Text State)
          → RemovesActive keeps
          → IsDict states
          → All (IsNews states) (retire null_text keeps now states).1
      unfolding retire
      retire-IsNews [] active h = tt
      retire-IsNews ((j, s) ∷ states) active h =
          let other = retire-IsOther j states h.0 in
          let rest = IsNews-cons j s states _ other (retire-IsNews states active h.1) in
          elim (Bool-cases (keeps s)) [
            | inl spared ↦ rw spared rest
            | inr gone ↦ rw gone (removal-IsNews j s states (active s gone), rest)
          ]

    retire_session-accepted :
        (keeps : StoredAwareness Text State → Bool) (session now peer now' : ℕ)
        (store : AwarenessStore Text State)
        → RemovesActive keeps
        → IsDict (states_of session store)
        → let removed = (retire_session null_text keeps session now store).1 in
          (apply_update session peer removed now' store).1 ≡ removed
    unfolding retire_session apply_update
    retire_session-accepted keeps session now peer now' store active h =
        elim (Option-cases (lookup session store.sessions)) [
          | inl absent ↦ rw (absent, retire_session) (unfold apply_entries in refl)
          | inr (states, present) ↦
              rw (present, retire_session)
                (apply_entries-IsNews peer now' (retire null_text keeps now states).1 states
                  (retire-HasDistinctClients keeps now states (rw present at h))
                  (retire-IsNews keeps now states active (rw present at h)))
        ]

    -- Every removal that `remove_owner` or `prune_stale` returns for broadcast is accepted, in full and in
    -- order, by a store that holds the states from before the removal, if those are keyed by distinct
    -- client ids.
    pub removals-accepted :
        (session owner now peer now' : ℕ) (store : AwarenessStore Text State)
        → IsDict (states_of session store)
        → let left = (remove_owner null_text session owner now store).1 in
          let pruned = (prune_stale null_text session now store).1 in
          ((apply_update session peer left now' store).1 ≡ left)
          × ((apply_update session peer pruned now' store).1 ≡ pruned)
    unfolding remove_owner prune_stale
    removals-accepted session owner now peer now' store h = (
      retire_session-accepted (keeps_owner owner) session now peer now' store (λ s e. ground arith)
          h,
      retire_session-accepted (keeps_fresh store.stale_timeout now) session now peer now' store
          (λ s e. ground arith) h,
    )
