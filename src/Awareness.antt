-- ===== src/Awareness.antt =====
-- backend/app/collaboration/presence.py, `AwarenessStore`: the Yjs awareness states of each session.
-- Sessions, client ids and WebSockets are numbers, since they are only compared; the monotonic clock is
-- read in whole ticks, and the stale timeout is counted in the same ticks.
pub mod Clocks
pub mod Removal
pub mod Invariant
pub mod Listing
use code_collaborator.Base.{
  ℕ, ◌+◌, Bool, true, false, ◌&&◌, ◌||◌, not, Option, none, some, is_some, List, [], ◌∷◌, ◌++◌, map,
  ltb, leb, ◌==◌, if◌then◌else◌,
}
use code_collaborator.Base.Dict.{Dict, lookup, insert, erase}
use code_collaborator.Protocol.{AwarenessEntry}

-- `_StoredAwareness`
pub record StoredAwareness (Text State : Type 0) : Type 0 where
  pub entry : AwarenessEntry Text State
  pub owner : Option ℕ
  pub last_seen : ℕ

pub record AwarenessStore (Text State : Type 0) : Type 0 where
  pub sessions : Dict (Dict (StoredAwareness Text State))
  pub stale_timeout : ℕ

-- The states of one session, by client id.
abbrev pub States : Type 0 → Type 0 → Type 0
States Text State = Dict (StoredAwareness Text State)

module _ {Text State : Type 0} where
  -- `entry.state is not None`
  abbrev pub is_active : AwarenessEntry Text State → Bool
  is_active e = is_some e.state

  abbrev pub current_clock : Option (StoredAwareness Text State) → ℕ
  current_clock none = 0
  current_clock (some s) = s.entry.clock

  abbrev pub current_is_active : Option (StoredAwareness Text State) → Bool
  current_is_active none = false
  current_is_active (some s) = is_active s.entry

  -- `stored.owner is owner`
  abbrev pub owned_by : ℕ → StoredAwareness Text State → Bool
  owned_by owner s = elim s.owner [ none ↦ false | some o ↦ o == owner ]

  -- The awareness clock rule of `apply_update`.
  unfoldable pub should_apply :
      Option (StoredAwareness Text State) → AwarenessEntry Text State → Bool
  should_apply current e =
      ltb (current_clock current) e.clock
      || (current_clock current == e.clock && (not (is_active e) && current_is_active current))

  -- `states[entry.client_id] = _StoredAwareness(...)`
  unfoldable pub stored : ℕ → ℕ → AwarenessEntry Text State → StoredAwareness Text State
  stored owner now e = record {
    entry = e;
    owner = if is_active e then some owner else none;
    last_seen = now;
  }

  -- One round of the loop of `apply_update`: the new states, and the entry if it was accepted.
  unfoldable pub apply_entry :
      ℕ
      → ℕ
      → AwarenessEntry Text State
      → States Text State
      → States Text State × List (AwarenessEntry Text State)
  apply_entry owner now e states =
      if should_apply (lookup e.client_id states) e
      then (insert e.client_id (stored owner now e) states, e ∷ [])
      else (states, [])

  unfoldable pub apply_entries :
      ℕ
      → ℕ
      → List (AwarenessEntry Text State)
      → States Text State
      → States Text State × List (AwarenessEntry Text State)
  apply_entries owner now [] states = (states, [])
  apply_entries owner now (e ∷ es) states =
      let (states', accepted) = apply_entry owner now e states in
      let (states'', more) = apply_entries owner now es states' in (states'', accepted ++ more)

  abbrev pub or_empty : Option (States Text State) → States Text State
  or_empty none = []
  or_empty (some states) = states

  -- `self._sessions.get(session_id, {})`
  abbrev pub states_of : ℕ → AwarenessStore Text State → States Text State
  states_of session store = or_empty (lookup session store.sessions)

  unfoldable pub apply_update :
      ℕ
      → ℕ
      → List (AwarenessEntry Text State)
      → ℕ
      → AwarenessStore Text State
      → AwarenessStore Text State × List (AwarenessEntry Text State)
  apply_update session owner entries now store =
      let (states, accepted) = apply_entries owner now entries (states_of session store) in
      (record store { sessions = insert session states store.sessions }, accepted)

  -- `sorted(states.items())`: the keys of a dict are distinct, so they alone decide.
  unfoldable pub insert_sorted :
      ℕ × StoredAwareness Text State → States Text State → States Text State
  insert_sorted x [] = x ∷ []
  insert_sorted x (y ∷ ys) =
      let later = insert_sorted x ys in if leb x.0 y.0 then x ∷ y ∷ ys else y ∷ later

  unfoldable pub sort_items : States Text State → States Text State
  sort_items [] = []
  sort_items (x ∷ xs) = insert_sorted x (sort_items xs)

  unfoldable pub active_only : States Text State → List (AwarenessEntry Text State)
  active_only [] = []
  active_only (x ∷ xs) =
      let rest = active_only xs in if is_active (x.1).entry then (x.1).entry ∷ rest else rest

  unfoldable pub active_entries : ℕ → AwarenessStore Text State → List (AwarenessEntry Text State)
  active_entries session store = active_only (sort_items (states_of session store))

  -- `stored.owner is not owner or stored.entry.state is None`
  abbrev pub keeps_owner : ℕ → StoredAwareness Text State → Bool
  keeps_owner owner s = not (owned_by owner s) || not (is_active s.entry)

  -- `stored.entry.state is None or timestamp - stored.last_seen <= self._stale_timeout`
  abbrev pub keeps_fresh : ℕ → ℕ → StoredAwareness Text State → Bool
  keeps_fresh timeout now s = not (is_active s.entry) || leb now (s.last_seen + timeout)

  -- The shared text of the two loops that remove states: `"null"` is the JSON text of a removal.
  module _ (null_text : Text) where
    unfoldable pub removal : ℕ → StoredAwareness Text State → AwarenessEntry Text State
    removal client s = record {
      client_id = client;
      clock = s.entry.clock;
      state = none;
      encoded_state = null_text;
    }

    unfoldable pub retire :
        (StoredAwareness Text State → Bool)
        → ℕ
        → States Text State
        → States Text State × List (AwarenessEntry Text State)
    retire keeps now [] = ([], [])
    retire keeps now ((client, s) ∷ states) =
        let (states', removed) = retire keeps now states in
        let gone = removal client s in
        if keeps s then ((client, s) ∷ states', removed) else (
          (client, record { entry = gone; owner = none; last_seen = now }) ∷ states',
          gone ∷ removed,
        )

    -- The states are mutated in place: a session that is not there stays away.
    retire_session :
        (StoredAwareness Text State → Bool)
        → ℕ
        → ℕ
        → AwarenessStore Text State
        → AwarenessStore Text State × List (AwarenessEntry Text State)
    unfolding retire
    retire_session keeps session now store = elim (lookup session store.sessions) [
      | none ↦ (store, [])
      | some states ↦
          let (states', removed) = retire keeps now states in
          (record store { sessions = insert session states' store.sessions }, removed)
    ]

    unfoldable pub remove_owner :
        ℕ
        → ℕ
        → ℕ
        → AwarenessStore Text State
        → AwarenessStore Text State × List (AwarenessEntry Text State)
    unfolding retire_session
    remove_owner session owner now store = retire_session (keeps_owner owner) session now store

    unfoldable pub prune_stale :
        ℕ
        → ℕ
        → AwarenessStore Text State
        → AwarenessStore Text State × List (AwarenessEntry Text State)
    unfolding retire_session
    prune_stale session now store =
        retire_session (keeps_fresh store.stale_timeout now) session now store

  unfoldable pub discard_session : ℕ → AwarenessStore Text State → AwarenessStore Text State
  discard_session session store = record store { sessions = erase session store.sessions }
