-- ===== src/Document/Saving.antt =====
-- Explicit saves of document.py: what reaches PostgreSQL, and what the server then says of the document.
use code_collaborator.Base.{
  ℕ, ◌≡◌, refl, Bool, true, false, not, Option, some, List, ok, err, subst, sym,
}
use code_collaborator.Base.Dict.{Dict, lookup, insert, lookup-insert_self}
use code_collaborator.Document.{
  Crdt, Metadata, StoredDocument, Documents, Answers, DocumentSaveResult, DocumentStatus,
  database_failed, apply_updates, get_document_status,
}
use code_collaborator.Document.Storage.{
  enter, leave, serialized, load_found, load_locked, mark_saved, persist_loaded, persist_locked,
  persist_to_db,
}
use code_collaborator.Document.Generations.{edited, numbered, IsLive, apply_updates-IsUpdated}
use code_collaborator.Document.Eviction.{leave_keeps, enter-IsLive, left_docs}

module _ (crdt : Crdt) where
  open crdt use {Doc, State, Vector, Hash, get_update, get_state, state_hash, same_hash, size}

  left_rows :
      (sid : ℕ) (m : Documents crdt) {o : Option (StoredDocument State)}
      → lookup sid m.rows ≡ o
      → lookup sid (leave crdt sid m).rows ≡ o
  left_rows sid m {o} found =
      subst (λ (d : Dict (StoredDocument State)). lookup sid d ≡ o) (sym (leave_keeps crdt sid m).3)
        found

  -- Whether updates that arrived during the save have changed what was saved.
  abbrev pub changed : List State → Doc → Bool
  changed edits doc =
      not
        (same_hash (state_hash (get_update (edited crdt edits doc))) (state_hash (get_update doc)))

  abbrev pub save_result : ℕ → List State → Doc → DocumentSaveResult Vector Hash
  save_result now edits doc = record {
    size_bytes = size (get_update doc);
    saved_at = now;
    state_vector = get_state doc;
    state_hash = state_hash (get_update doc);
    dirty = changed edits doc;
  }

  abbrev pub saved_row : ℕ → Doc → StoredDocument State
  saved_row now doc = record { state = some (get_update doc); saved_at = some now }

  abbrev saved_metadata : ℕ → List State → Doc → Metadata Vector Hash → Metadata Vector Hash
  saved_metadata now edits doc meta = record (numbered crdt edits doc meta) {
    saved_state_vector = get_state doc;
    saved_state_hash = state_hash (get_update doc);
    saved_at = some now;
  }

  abbrev after_save :
      ℕ → ℕ → List State → Doc → Metadata Vector Hash → Documents crdt → Documents crdt
  after_save sid now edits doc meta m =
      let m1 = apply_updates crdt sid edits m in
      record m1 {
        rows = insert sid (saved_row now doc) m1.rows;
        metadata = insert sid (saved_metadata now edits doc meta) m1.metadata;
      }

  load_locked_live :
      (answers : Answers) (sid : ℕ) (m : Documents crdt) (doc : Doc)
      → lookup sid m.docs ≡ some doc
      → load_locked crdt answers sid m ≡ (ok doc, m)
  unfolding load_locked load_found
  load_locked_live answers sid m doc found = rw found refl

  persist_loaded_lem :
      (redis_ok : Bool) (sid now : ℕ) (edits : List State) (m : Documents crdt) (doc : Doc)
      (meta : Metadata Vector Hash) (row : StoredDocument State)
      → IsLive crdt m sid doc meta
      → lookup sid m.rows ≡ some row
      → persist_loaded crdt (record { database_ok = true; redis_ok = redis_ok }) edits now sid doc m
        ≡ (ok (save_result now edits doc), after_save sid now edits doc meta m)
  unfolding persist_loaded mark_saved
  persist_loaded_lem redis_ok sid now edits m doc meta row live found =
      let updated = apply_updates-IsUpdated crdt sid edits m doc meta live in
      let row_found : lookup sid (apply_updates crdt sid edits m).rows ≡ some row =
        cc (updated.storage.same_rows, found) in
      rw (row_found, updated.live.has_doc, updated.live.has_metadata) refl

  persist_locked_lem :
      (redis_ok : Bool) (sid now : ℕ) (edits : List State) (m : Documents crdt) (doc : Doc)
      (meta : Metadata Vector Hash) (row : StoredDocument State)
      → IsLive crdt m sid doc meta
      → lookup sid m.rows ≡ some row
      → persist_locked crdt (record { database_ok = true; redis_ok = redis_ok }) edits now sid m
        ≡ (ok (save_result now edits doc), after_save sid now edits doc meta m)
  unfolding persist_locked
  persist_locked_lem redis_ok sid now edits m doc meta row live found =
      let loaded =
        load_locked_live (record { database_ok = true; redis_ok = redis_ok }) sid m doc
          live.has_doc in
      rw (loaded, persist_locked)
        (rw loaded (persist_loaded_lem redis_ok sid now edits m doc meta row live found))

  persist_locked_failed :
      (redis_ok : Bool) (sid now : ℕ) (edits : List State) (m : Documents crdt) (doc : Doc)
      → lookup sid m.docs ≡ some doc
      → persist_locked crdt (record { database_ok = false; redis_ok = redis_ok }) edits now sid m
        ≡ (err database_failed, apply_updates crdt sid edits m)
  unfolding persist_locked persist_loaded
  persist_locked_failed redis_ok sid now edits m doc found =
      let loaded =
        load_locked_live (record { database_ok = false; redis_ok = redis_ok }) sid m doc found in
      rw (loaded, persist_locked) (rw loaded refl)

  left_metadata :
      (sid : ℕ) (m : Documents crdt) {o : Option (Metadata Vector Hash)}
      → lookup sid m.metadata ≡ o
      → lookup sid (leave crdt sid m).metadata ≡ o
  left_metadata sid m {o} found =
      subst (λ (d : Dict (Metadata Vector Hash)). lookup sid d ≡ o) (sym (leave_keeps crdt sid m).1)
        found

  abbrev status_of : Doc → Metadata Vector Hash → DocumentStatus Vector Hash
  status_of doc meta = record {
    saved_state_vector = meta.saved_state_vector;
    saved_state_hash = meta.saved_state_hash;
    saved_at = meta.saved_at;
    dirty = not (same_hash (state_hash (get_update doc)) meta.saved_state_hash);
    generation = meta.generation;
    checkpointed_generation = meta.checkpointed_generation;
  }

  status_live :
      (sid : ℕ) (m : Documents crdt) (doc : Doc) (meta : Metadata Vector Hash)
      → lookup sid m.docs ≡ some doc
      → lookup sid m.metadata ≡ some meta
      → get_document_status crdt sid m ≡ some (status_of doc meta)
  unfolding get_document_status
  status_live sid m doc meta has_doc has_metadata = rw (has_doc, has_metadata) refl

  -- Saving a live document whose session row exists: if PostgreSQL commits, the row has the state that
  -- the document had when the save began, the document keeps the updates applied meanwhile, and both the
  -- result and the document's status report it dirty exactly when the hashes of the two states differ. If
  -- PostgreSQL fails, the call raises, the row is as before, and the document keeps those updates.
  pub persist_to_db_lem :
      (redis_ok : Bool) (sid now : ℕ) (edits : List State) (m : Documents crdt) (doc : Doc)
      (meta : Metadata Vector Hash) (row : StoredDocument State)
      → IsLive crdt m sid doc meta
      → lookup sid m.rows ≡ some row
      → let (r, m') =
          persist_to_db crdt (record { database_ok = true; redis_ok = redis_ok }) edits now sid m in
        let (r', m'') =
          persist_to_db crdt
            (record { database_ok = false; redis_ok = redis_ok })
            edits
            now
            sid
            m in
        (r ≡ ok (save_result now edits doc))
        × (lookup sid m'.rows ≡ some (saved_row now doc))
        × (lookup sid m'.docs ≡ some (edited crdt edits doc))
        × ((status : DocumentStatus Vector Hash) × (get_document_status crdt sid m' ≡ some status)
            × (status.dirty ≡ changed edits doc))
        × (r' ≡ err database_failed)
        × (lookup sid m''.rows ≡ some row)
        × (lookup sid m''.docs ≡ some (edited crdt edits doc))
  unfolding persist_to_db serialized
  persist_to_db_lem redis_ok sid now edits m doc meta row live found =
      let entered = enter-IsLive crdt sid m doc meta live in
      let inside = enter crdt sid m in
      let e = persist_locked_lem redis_ok sid now edits inside doc meta row entered found in
      let f = persist_locked_failed redis_ok sid now edits inside doc live.has_doc in
      let updated = apply_updates-IsUpdated crdt sid edits inside doc meta entered in
      let after = after_save sid now edits doc meta inside in
      let m1 = apply_updates crdt sid edits inside in
      let has_doc = left_docs crdt sid after updated.live.has_doc in
      let saved_meta = saved_metadata now edits doc meta in
      let has_metadata = left_metadata sid after (lookup-insert_self sid saved_meta m1.metadata) in
      let same_row : lookup sid m1.rows ≡ some row = cc (updated.storage.same_rows, found) in
      rw (e, f)
        (
          refl,
          left_rows sid after (lookup-insert_self sid (saved_row now doc) m1.rows),
          has_doc,
          (
            status_of (edited crdt edits doc) saved_meta,
            status_live sid (leave crdt sid after) (edited crdt edits doc) saved_meta has_doc
                has_metadata,
            refl,
          ),
          refl,
          left_rows sid m1 same_row,
          left_docs crdt sid m1 updated.live.has_doc,
        )
