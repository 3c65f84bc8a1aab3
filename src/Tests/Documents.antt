-- ===== src/Tests/Documents.antt =====
-- A live document (backend/app/collaboration/document.py) over a toy CRDT: a document is the list of
-- the updates that it has, and an empty update is malformed.
use code_collaborator.Base.{
  ℕ, ◌≡◌, ◌<◌, refl, true, false, Option, none, some, List, [], ◌∷◌, ◌++◌, length, ◌==◌, ok, err,
}
use code_collaborator.Base.Dict.{lookup}
use code_collaborator.Document.{
  Crdt, Metadata, StoredDocument, Documents, DocumentStatus, redis_failed, database_failed,
  get_document_status,
}
use code_collaborator.Document.Storage.{checkpoint_and_remove, persist_to_db}
use code_collaborator.Document.Generations.{edited, accepted, IsLive}
use code_collaborator.Document.Eviction.{checkpoint_and_remove_lem}
use code_collaborator.Document.Saving.{changed, save_result, saved_row, persist_to_db_lem}

abbrev apply : List ℕ → List ℕ → Option (List ℕ)
apply [] doc = none
apply (x ∷ xs) doc = some ((x ∷ xs) ++ doc)

abbrev pub crdt : Crdt
crdt = record {
  Doc = List ℕ;
  State = List ℕ;
  Vector = ℕ;
  Hash = ℕ;
  Text = List ℕ;
  new_doc = [];
  apply = apply;
  get_update = λ doc. doc;
  get_diff = λ n doc. doc;
  get_state = λ doc. length doc;
  state_hash = λ state. length state;
  same_hash = λ a b. a == b;
  empty_text = [];
  text = λ doc. doc;
  same_text = λ a b. length a == length b;
  set_text = λ desired doc. desired;
  size = λ state. length state;
}

abbrev pub doc : List ℕ
doc = 3 ∷ 4 ∷ []

abbrev edits : List (List ℕ)
edits = [] ∷ (5 ∷ []) ∷ []

abbrev pub meta : Metadata ℕ ℕ
meta = record {
  generation = 2;
  checkpointed_generation = none;
  saved_state_vector = 0;
  saved_state_hash = 0;
  saved_at = none;
}

abbrev pub row : StoredDocument (List ℕ)
row = record { state = none; saved_at = some 10 }

abbrev pub one : Documents crdt
one = record {
  docs = (7, doc) ∷ [];
  metadata = (7, meta) ∷ [];
  users = [];
  loading = [];
  checkpoints = [];
  rows = (7, row) ∷ [];
}

pub one-IsLive : IsLive crdt one 7 doc meta
one-IsLive = record { has_doc = refl; has_metadata = refl }

checkpoint_and_remove_lem_example :
    let (r, m') = checkpoint_and_remove crdt true edits 7 one in
    let (r', m'') = checkpoint_and_remove crdt false edits 7 one in
    (accepted crdt edits doc ≡ 0
      → (r ≡ ok true) × (lookup 7 m'.docs ≡ none) × (lookup 7 m'.checkpoints ≡ some doc))
    × (0 < accepted crdt edits doc
        → (r ≡ ok false)
          × (lookup 7 m'.docs ≡ some (edited crdt edits doc))
          × (lookup 7 m'.checkpoints ≡ some doc))
    × ((r' ≡ err redis_failed) × (lookup 7 m''.docs ≡ some (edited crdt edits doc)))
checkpoint_and_remove_lem_example = checkpoint_and_remove_lem crdt 7 edits one doc meta one-IsLive

persist_to_db_lem_example :
    let (r, m') =
      persist_to_db crdt (record { database_ok = true; redis_ok = true }) edits 50 7 one in
    let (r', m'') =
      persist_to_db crdt (record { database_ok = false; redis_ok = true }) edits 50 7 one in
    (r ≡ ok (save_result crdt 50 edits doc))
    × (lookup 7 m'.rows ≡ some (saved_row crdt 50 doc))
    × (lookup 7 m'.docs ≡ some (edited crdt edits doc))
    × ((status : DocumentStatus ℕ ℕ) × (get_document_status crdt 7 m' ≡ some status)
        × (status.dirty ≡ changed crdt edits doc))
    × (r' ≡ err database_failed)
    × (lookup 7 m''.rows ≡ some row)
    × (lookup 7 m''.docs ≡ some (edited crdt edits doc))
persist_to_db_lem_example = persist_to_db_lem crdt true 7 50 edits one doc meta row one-IsLive refl
