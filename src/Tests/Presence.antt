-- ===== src/Tests/Presence.antt =====
-- Awareness states (backend/app/collaboration/presence.py) of two clients in one session.
use code_collaborator.Base.{ℕ, ◌≡◌, refl, none, some, [], ◌∷◌}
use code_collaborator.Base.Dict.{lookup}
use code_collaborator.Protocol.{AwarenessEntry}
use code_collaborator.Awareness.{
  StoredAwareness, AwarenessStore, apply_update, states_of, remove_owner, prune_stale,
  discard_session,
}
use code_collaborator.Awareness.Clocks.{apply_update-apply_update}
use code_collaborator.Awareness.Removal.{IsPruned, prune_stale_lem, removals-accepted}
use code_collaborator.Awareness.Invariant.{IsValid, operations-IsValid}
use code_collaborator.Presence.{UserPresence, Presences}

abbrev Entry : Type 0
Entry = AwarenessEntry ℕ ℕ

abbrev Store : Type 0
Store = AwarenessStore ℕ ℕ

abbrev first : Entry
first = record { client_id = 5; clock = 1; state = some 8; encoded_state = 8 }

abbrev second : Entry
second = record { client_id = 3; clock = 4; state = some 9; encoded_state = 9 }

abbrev older : Entry
older = record { client_id = 5; clock = 0; state = none; encoded_state = 0 }

abbrev empty : Store
empty = record { sessions = []; stale_timeout = 35 }

-- Session 1 with the entry of the connection 20.
abbrev one : Store
one = record empty {
  sessions = (1, (5, record { entry = first; owner = some 20; last_seen = 100 }) ∷ []) ∷ [];
}

one-IsValid : IsValid one
one-IsValid = record {
  sessions_distinct = (refl, tt);
  states_kept = (((refl, tt), (refl, tt)), tt);
}

apply_update-apply_update_example :
    let (store', _) = apply_update 1 20 (first ∷ second ∷ []) 100 one in
    apply_update 1 21 (first ∷ second ∷ []) 120 store' ≡ (store', [])
apply_update-apply_update_example =
    apply_update-apply_update 1 20 21 100 120 (first ∷ second ∷ []) one

prune_stale_lem_example :
    let store' = (prune_stale 0 1 200 one).0 in
    (lookup 5 (states_of 1 one) ≡ none → lookup 5 (states_of 1 store') ≡ none)
    × ((before : StoredAwareness ℕ ℕ)
        → lookup 5 (states_of 1 one) ≡ some before
        → (after : StoredAwareness ℕ ℕ) × (lookup 5 (states_of 1 store') ≡ some after)
          × IsPruned 0 35 200 before after)
prune_stale_lem_example = prune_stale_lem 0 1 200 5 one

removals-accepted_example :
    let left = (remove_owner 0 1 20 200 one).1 in
    let pruned = (prune_stale 0 1 200 one).1 in
    ((apply_update 1 44 left 210 one).1 ≡ left) × ((apply_update 1 44 pruned 210 one).1 ≡ pruned)
removals-accepted_example = removals-accepted 0 1 20 200 44 210 one (refl, tt)

operations-IsValid_example :
    IsValid (apply_update 1 20 (second ∷ []) 120 one).0
    × IsValid (remove_owner 0 1 20 120 one).0
    × IsValid (prune_stale 0 1 120 one).0
    × IsValid (discard_session 1 one)
operations-IsValid_example = operations-IsValid 0 1 20 120 (second ∷ []) one one-IsValid

abbrev ada : UserPresence ℕ
ada = record {
  user_id = 1;
  username = "ada";
  color = some "#3b82f6";
  cursor = none;
  selection = none;
  last_seen = 100;
}

abbrev online : Presences ℕ
online = (7, (1, ada) ∷ (2, record ada { user_id = 2; username = "bob"; last_seen = 60 }) ∷ []) ∷ []
