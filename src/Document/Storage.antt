-- ===== src/Document/Storage.antt =====
-- backend/app/collaboration/document.py: loading, checkpointing, saving and evicting documents. Each call
-- runs under the lock of its session; what it waits for is the argument `storage` or `redis_ok`, and
-- the updates applied meanwhile are `edits`.
use code_collaborator.Base.{
  ℕ, ◌+◌, ◌-◌, Bool, true, false, ◌&&◌, not, Option, none, some, is_some, List, ◌∷◌, ◌==◌, filterb,
  if◌then◌else◌, ok, err,
}
use code_collaborator.Base.Dict.{lookup, insert, erase}
use code_collaborator.Document.{
  Crdt, Metadata, StoredDocument, Answers, DocumentSaveResult, Documents, Call, redis_failed,
  database_failed, no_metadata, apply_updates,
}

module _ (crdt : Crdt) where
  open crdt use {
    Doc, State, Vector, Hash, new_doc, apply, get_update, get_state, state_hash, same_hash, size,
  }

  -- `_serialized`: a guard counts its users, and goes when it has none and its session no document.
  abbrev users_of : Option ℕ → ℕ
  users_of none = 0
  users_of (some n) = n

  abbrev pub enter : ℕ → Documents crdt → Documents crdt
  enter sid m = record m { users = insert sid (users_of (lookup sid m.users) + 1) m.users }

  abbrev pub leave : ℕ → Documents crdt → Documents crdt
  leave sid m =
      let left = users_of (lookup sid m.users) - 1 in
      if left == 0 && not (is_some (lookup sid m.docs))
      then record m { users = erase sid m.users }
      else record m { users = insert sid left m.users }

  unfoldable pub serialized : {A : Type 0} → ℕ → Call crdt A → Call crdt A
  serialized sid call m = let (r, m') = call (enter sid m) in (r, leave sid m')

  -- `_load_db_state`
  abbrev pub load_db_state : Option (StoredDocument State) → StoredDocument State
  load_db_state none = record { state = none; saved_at = none }
  load_db_state (some row) = row

  abbrev kept : Doc → Option Doc → Doc × Bool
  kept doc none = (doc, false)
  kept doc (some doc') = (doc', true)

  -- `apply_update` of stored bytes, if there are any; a failure is logged.
  abbrev pub merge : Option State → Doc → Doc × Bool
  merge none doc = (doc, false)
  merge (some state) doc = kept doc (apply state doc)

  -- `_loading_sessions.add` and `discard`
  abbrev pub begin_load : ℕ → Documents crdt → Documents crdt
  begin_load sid m = record m { loading = sid ∷ m.loading }

  abbrev pub end_load : ℕ → Documents crdt → Documents crdt
  end_load sid m = record m { loading = filterb (λ s. not (s == sid)) m.loading }

  -- The documents of `_load_from_storage_locked` and its metadata, once both sources were read.
  unfoldable pub publish_loaded : ℕ → StoredDocument State → Option State → Call crdt Doc
  publish_loaded sid stored checkpoint m =
      let (saved, _) = merge stored.state new_doc in
      let (doc, recovered_checkpoint) = merge checkpoint saved in
      (
        ok doc,
        record m {
          docs = insert sid doc m.docs;
          metadata =
              insert sid
                (record {
                  generation = 0;
                  checkpointed_generation = if recovered_checkpoint then some 0 else none;
                  saved_state_vector = get_state saved;
                  saved_state_hash = state_hash (get_update saved);
                  saved_at = if is_some stored.state then stored.saved_at else none;
                })
                m.metadata;
        },
      )

  unfoldable pub load_found : Answers → ℕ → Option Doc → Call crdt Doc
  load_found storage sid (some doc) m = (ok doc, m)
  load_found storage sid none m =
      let m1 = begin_load sid m in
      let checkpoint = if storage.redis_ok then lookup sid m1.checkpoints else none in
      let (r, m2) = publish_loaded sid (load_db_state (lookup sid m1.rows)) checkpoint m1 in
      if storage.database_ok then (r, end_load sid m2) else (err database_failed, end_load sid m1)

  -- `_load_from_storage_locked`
  unfoldable pub load_locked : Answers → ℕ → Call crdt Doc
  load_locked storage sid m = load_found storage sid (lookup sid m.docs) m

  -- `load_from_storage`
  unfoldable pub load_from_storage : Answers → ℕ → Call crdt Doc
  load_from_storage storage sid = serialized sid (load_locked storage sid)

  -- `metadata.checkpointed_generation = generation`: the object that the call found.
  abbrev pub mark_checkpoint :
      ℕ → ℕ → Option (Metadata Vector Hash) → Documents crdt → Documents crdt
  mark_checkpoint sid generation none m = m
  mark_checkpoint sid generation (some meta) m = record m {
    metadata = insert sid (record meta { checkpointed_generation = some generation }) m.metadata;
  }

  unfoldable pub checkpoint_found :
      Bool → List State → ℕ → Option Doc → Option (Metadata Vector Hash) → Call crdt ℕ
  checkpoint_found redis_ok edits sid (some doc) (some meta) m =
      let state = get_update doc in
      let m1 = apply_updates crdt sid edits m in
      let m2 : Documents crdt = record m1 { checkpoints = insert sid state m1.checkpoints } in
      if redis_ok
      then (ok (size state), mark_checkpoint sid meta.generation (lookup sid m2.metadata) m2)
      else (err redis_failed, m1)
  checkpoint_found redis_ok edits sid (some doc) none m = (ok 0, m)
  checkpoint_found redis_ok edits sid none meta m = (ok 0, m)

  -- `_checkpoint_to_redis_locked`
  unfoldable pub checkpoint_locked : Bool → List State → ℕ → Call crdt ℕ
  checkpoint_locked redis_ok edits sid m =
      checkpoint_found redis_ok edits sid (lookup sid m.docs) (lookup sid m.metadata) m

  -- `checkpoint_to_redis`
  unfoldable pub checkpoint_to_redis : Bool → List State → ℕ → Call crdt ℕ
  checkpoint_to_redis redis_ok edits sid = serialized sid (checkpoint_locked redis_ok edits sid)

  abbrev pub drop_doc : ℕ → Documents crdt → Documents crdt
  drop_doc sid m = record m { docs = erase sid m.docs; metadata = erase sid m.metadata }

  abbrev generation_of : Option (Metadata Vector Hash) → ℕ
  generation_of none = 0
  generation_of (some meta) = meta.generation

  unfoldable pub evict_found :
      Bool → List State → ℕ → Option Doc → Option (Metadata Vector Hash) → Call crdt Bool
  evict_found redis_ok edits sid (some doc) (some meta) m =
      let (r, m1) = checkpoint_locked redis_ok edits sid m in
      elim r [
        | err e ↦ (err e, m1)
        | ok _ ↦
            if generation_of (lookup sid m1.metadata) == meta.generation
            then (ok true, drop_doc sid m1)
            else (ok false, m1)
      ]
  evict_found redis_ok edits sid (some doc) none m = (ok true, m)
  evict_found redis_ok edits sid none meta m = (ok true, m)

  unfoldable pub evict_locked : Bool → List State → ℕ → Call crdt Bool
  evict_locked redis_ok edits sid m =
      evict_found redis_ok edits sid (lookup sid m.docs) (lookup sid m.metadata) m

  -- `checkpoint_and_remove`
  unfoldable pub checkpoint_and_remove : Bool → List State → ℕ → Call crdt Bool
  checkpoint_and_remove redis_ok edits sid = serialized sid (evict_locked redis_ok edits sid)

  abbrev current_or : Doc → Option Doc → Doc
  current_or doc none = doc
  current_or doc (some doc') = doc'

  -- The metadata after a save: `self._metadata[session_id]`, which raises if it is not there.
  unfoldable pub mark_saved :
      ℕ
      → Doc
      → ℕ
      → Option Doc
      → Option (Metadata Vector Hash)
      → Call crdt (DocumentSaveResult Vector Hash)
  mark_saved sid doc now current none m = (err no_metadata, m)
  mark_saved sid doc now current (some meta) m =
      let state = get_update doc in
      let hash = state_hash state in
      let latest : Doc = current_or doc current in
      (
        ok (record {
          size_bytes = size state;
          saved_at = now;
          state_vector = get_state doc;
          state_hash = hash;
          dirty = not (same_hash (state_hash (get_update latest)) hash);
        }),
        record m {
          metadata =
              insert sid
                (record meta {
                  saved_state_vector = get_state doc;
                  saved_state_hash = hash;
                  saved_at = some now;
                })
                m.metadata;
        },
      )

  -- `update(Session).where(Session.id == ...)`: a row that is not there stays away.
  abbrev pub save_row :
      ℕ → ℕ → State → Option (StoredDocument State) → Documents crdt → Documents crdt
  save_row sid now state none m = m
  save_row sid now state (some row) m = record m {
    rows = insert sid (record { state = some state; saved_at = some now }) m.rows;
  }

  unfoldable pub persist_loaded :
      Answers → List State → ℕ → ℕ → Doc → Call crdt (DocumentSaveResult Vector Hash)
  persist_loaded storage edits now sid doc m =
      let m1 = apply_updates crdt sid edits m in
      let m2 = save_row sid now (get_update doc) (lookup sid m1.rows) m1 in
      if storage.database_ok
      then mark_saved sid doc now (lookup sid m2.docs) (lookup sid m2.metadata) m2
      else (err database_failed, m1)

  -- `_persist_to_db_locked`
  unfoldable pub persist_locked :
      Answers → List State → ℕ → ℕ → Call crdt (DocumentSaveResult Vector Hash)
  persist_locked storage edits now sid m =
      let (r, m1) = load_locked storage sid m in
      elim r [ err e ↦ (err e, m1) | ok doc ↦ persist_loaded storage edits now sid doc m1 ]

  -- `persist_to_db`
  unfoldable pub persist_to_db :
      Answers → List State → ℕ → ℕ → Call crdt (DocumentSaveResult Vector Hash)
  persist_to_db storage edits now sid = serialized sid (persist_locked storage edits now sid)

  abbrev is_checkpointed : Metadata Vector Hash → Bool
  is_checkpointed meta = elim meta.checkpointed_generation [
    | none ↦ false
    | some generation ↦ generation == meta.generation
  ]

  unfoldable pub remove_found :
      ℕ → Option (Metadata Vector Hash) → Documents crdt → Bool × Documents crdt
  remove_found sid none m = (true, m)
  remove_found sid (some meta) m =
      let dropped = drop_doc sid m in
      if not (is_checkpointed meta)
      then (false, m)
      else if not (users_of (lookup sid m.users) == 0)
      then (false, m)
      else (true, record dropped { users = erase sid dropped.users })

  -- `remove_doc`
  unfoldable pub remove_doc : ℕ → Documents crdt → Bool × Documents crdt
  remove_doc sid m = remove_found sid (lookup sid m.metadata) m
