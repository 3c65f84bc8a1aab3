-- ===== src/Document.antt =====
-- backend/app/collaboration/document.py: the live documents, their Redis checkpoints and their saves in
-- PostgreSQL. Session ids and times are numbers. A storage call holds the lock of its session, but
-- updates of clients are applied while it waits for Redis or PostgreSQL: `edits` are those updates.
pub mod Storage
pub mod Eviction
pub mod Generations
pub mod Saving
pub mod Rows
pub mod Locality
use code_collaborator.Base.{
  ℕ, ◌+◌, Bool, true, false, ◌&&◌, ◌||◌, not, Option, none, some, is_some, List, [], ◌∷◌, ltb, ◌==◌,
  filterb, if◌then◌else◌, Result, ok, err,
}
use code_collaborator.Base.Dict.{Dict, lookup, insert, erase}

-- What the module takes from pycrdt and hashlib. `apply` is `Doc.apply_update` (`none`: it raises and
-- leaves the document as it was), `get_diff` is `get_update` with a state vector, and `set_text` the
-- transaction that clears the text and inserts another.
pub record Crdt : Type 1 where
  pub Doc : Type 0
  pub State : Type 0
  pub Vector : Type 0
  pub Hash : Type 0
  pub Text : Type 0
  pub new_doc : Doc
  pub apply : State → Doc → Option Doc
  pub get_update : Doc → State
  pub get_diff : Vector → Doc → State
  pub get_state : Doc → Vector
  pub state_hash : State → Hash
  pub same_hash : Hash → Hash → Bool
  pub empty_text : Text
  pub text : Doc → Text
  pub same_text : Text → Text → Bool
  pub set_text : Text → Doc → Doc
  pub size : State → ℕ

-- `_DocumentMetadata`
pub record Metadata (Vector Hash : Type 0) : Type 0 where
  pub generation : ℕ
  pub checkpointed_generation : Option ℕ
  pub saved_state_vector : Vector
  pub saved_state_hash : Hash
  pub saved_at : Option ℕ

-- `_StoredDocument`
pub record StoredDocument (State : Type 0) : Type 0 where
  pub state : Option State
  pub saved_at : Option ℕ

-- `DocumentManager`, with the checkpoints in Redis and the session rows in PostgreSQL. `users` is the
-- number of users of each guard.
pub record Manager (Doc State Vector Hash : Type 0) : Type 0 where
  pub docs : Dict Doc
  pub metadata : Dict (Metadata Vector Hash)
  pub users : Dict ℕ
  pub loading : List ℕ
  pub checkpoints : Dict State
  pub rows : Dict (StoredDocument State)

-- `DocumentSaveResult`
pub record DocumentSaveResult (Vector Hash : Type 0) : Type 0 where
  pub size_bytes : ℕ
  pub saved_at : ℕ
  pub state_vector : Vector
  pub state_hash : Hash
  pub dirty : Bool

-- `DocumentStatus`
pub record DocumentStatus (Vector Hash : Type 0) : Type 0 where
  pub saved_state_vector : Vector
  pub saved_state_hash : Hash
  pub saved_at : Option ℕ
  pub dirty : Bool
  pub generation : ℕ
  pub checkpointed_generation : Option ℕ

-- How the two stores answer one call: PostgreSQL may raise, and a Redis that fails has no value.
pub record Answers : Type 0 where
  pub database_ok : Bool
  pub redis_ok : Bool

pub data DocumentError : Type 0 where
  still_loading apply_failed no_metadata redis_failed database_failed : DocumentError

abbrev pub contains : ℕ → List ℕ → Bool
contains k [] = false
contains k (j ∷ js) = j == k || contains k js

module _ (crdt : Crdt) where
  open crdt use {
    Doc, State, Vector, Hash, Text, new_doc, apply, get_update, get_diff, get_state, state_hash,
    same_hash, empty_text, text, same_text, set_text, size,
  }

  abbrev pub Documents : Type 0
  Documents = Manager Doc State Vector Hash

  abbrev pub Call : Type 0 → Type 0
  Call A = Documents → Result DocumentError A × Documents

  -- `_publish_new_doc`
  unfoldable pub publish_new_doc : ℕ → Doc → Documents → Documents
  publish_new_doc sid doc m = record m {
    docs = insert sid doc m.docs;
    metadata =
        insert sid
          (record {
            generation = 0;
            checkpointed_generation = none;
            saved_state_vector = get_state doc;
            saved_state_hash = state_hash (get_update doc);
            saved_at = none;
          })
          m.metadata;
  }

  unfoldable pub get_or_create_found : ℕ → Option Doc → Call Doc
  get_or_create_found sid (some doc) m = (ok doc, m)
  get_or_create_found sid none m =
      if contains sid m.loading
      then (err still_loading, m)
      else (ok new_doc, publish_new_doc sid new_doc m)

  unfoldable pub get_or_create : ℕ → Call Doc
  get_or_create sid m = get_or_create_found sid (lookup sid m.docs) m

  -- `self._metadata[session_id].generation += 1`
  unfoldable pub bump : ℕ → Option (Metadata Vector Hash) → Call (Unit {0})
  bump sid none m = (err no_metadata, m)
  bump sid (some meta) m = (
    ok tt,
    record m {
      metadata = insert sid (record meta { generation = meta.generation + 1 }) m.metadata;
    },
  )

  unfoldable pub applied : ℕ → Option Doc → Call (Unit {0})
  applied sid none m = (err apply_failed, m)
  applied sid (some doc) m =
      let m' : Documents = record m { docs = insert sid doc m.docs } in
      bump sid (lookup sid m'.metadata) m'

  unfoldable pub apply_update : ℕ → State → Call (Unit {0})
  apply_update sid update m =
      let (r, m') = get_or_create sid m in
      elim r [ err e ↦ (err e, m') | ok doc ↦ applied sid (apply update doc) m' ]

  -- Updates that arrive during a storage call; one that raises ends with its own connection.
  unfoldable pub apply_updates : ℕ → List State → Documents → Documents
  apply_updates sid [] m = m
  apply_updates sid (update ∷ updates) m = apply_updates sid updates (apply_update sid update m).1

  unfoldable pub get_state_vector : ℕ → Call Vector
  get_state_vector sid m =
      let (r, m') = get_or_create sid m in
      elim r [ err e ↦ (err e, m') | ok doc ↦ (ok (get_state doc), m') ]

  abbrev update_since : Option Vector → Doc → State
  update_since none doc = get_update doc
  update_since (some vector) doc = get_diff vector doc

  unfoldable pub encode_state_as_update : ℕ → Option Vector → Call State
  encode_state_as_update sid vector m =
      let (r, m') = get_or_create sid m in
      elim r [ err e ↦ (err e, m') | ok doc ↦ (ok (update_since vector doc), m') ]

  unfoldable pub read_text : ℕ → Documents → Text
  read_text sid m = elim (lookup sid m.docs) [ none ↦ empty_text | some doc ↦ text doc ]

  -- `restore_text_from_state`, once the snapshot's text is known.
  unfoldable pub restore_into : ℕ → Text → Doc → Call State
  restore_into sid desired doc m =
      let doc' = set_text desired doc in
      let m' : Documents = record m { docs = insert sid doc' m.docs } in
      let (r, m'') = bump sid (lookup sid m'.metadata) m' in
      if same_text (text doc) desired
      then (ok (get_diff (get_state doc) doc), m)
      else elim r [ err e ↦ (err e, m'') | ok _ ↦ (ok (get_diff (get_state doc) doc'), m'') ]

  unfoldable pub restore_snapshot : ℕ → Option Doc → Call State
  restore_snapshot sid none m = (err apply_failed, m)
  restore_snapshot sid (some snapshot) m =
      let (r, m') = get_or_create sid m in
      elim r [ err e ↦ (err e, m') | ok doc ↦ restore_into sid (text snapshot) doc m' ]

  unfoldable pub restore_text_from_state : ℕ → State → Call State
  restore_text_from_state sid state m = restore_snapshot sid (apply state new_doc) m

  abbrev status_found :
      Option Doc → Option (Metadata Vector Hash) → Option (DocumentStatus Vector Hash)
  status_found (some doc) (some meta) = some (record {
    saved_state_vector = meta.saved_state_vector;
    saved_state_hash = meta.saved_state_hash;
    saved_at = meta.saved_at;
    dirty = not (same_hash (state_hash (get_update doc)) meta.saved_state_hash);
    generation = meta.generation;
    checkpointed_generation = meta.checkpointed_generation;
  })
  status_found (some doc) none = none
  status_found none meta = none

  unfoldable pub get_document_status : ℕ → Documents → Option (DocumentStatus Vector Hash)
  get_document_status sid m = status_found (lookup sid m.docs) (lookup sid m.metadata)
