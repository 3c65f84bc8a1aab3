-- ===== src/Endpoints/Documents/Effects.antt =====
-- What a save and a run leave behind, from the tables to the connections of the room.
use code_collaborator.Base.{
  ℕ, ◌+◌, ◌≡◌, refl, ◌∙◌, Bool, true, some, List, Bool-cases, inl, inr, if◌then◌else◌, ok, err,
}
use code_collaborator.Base.Dict.{lookup, insert}
use code_collaborator.Lib0.{Bytes}
use code_collaborator.Models.{editor, Session}
use code_collaborator.Sessions.{Db}
use code_collaborator.Access.{role_checker, require_current_editor}
use code_collaborator.Execution.{create_queued_execution, new_execution, http_status}
use code_collaborator.Protocol.{PyText}
use code_collaborator.Document.{Crdt, Metadata, Documents, Answers, read_text}
use code_collaborator.Document.Storage.{enter, leave, checkpoint_and_remove}
use code_collaborator.Document.Eviction.{left_docs}
use code_collaborator.Document.Rows.{rows-checkpoint_and_remove, load_from_storage_live, rows-leave}
use code_collaborator.Document.Locality.{TouchesOnly, SameAt-trans, reentered-SameAt}
use code_collaborator.Document.Locality.Calls.{checkpoint_and_remove-SameAt}
use code_collaborator.Rooms.{Codec}
use code_collaborator.Endpoints.Documents.{Site, Met, is_occupied, run_document, capture}
use Prim.Native.String.{String}

module _ (py : PyText) (crdt : Crdt) where
  open crdt use {Doc, State, Vector, Hash}

  -- The metadata of a document after one more edit.
  abbrev edited_once : Metadata Vector Hash → Metadata Vector Hash
  edited_once meta = record meta { generation = meta.generation + 1 }

  abbrev with_doc : (sid : ℕ) → Doc → Metadata Vector Hash → Documents crdt → Documents crdt
  with_doc sid doc meta m = record m {
    docs = insert sid doc m.docs;
    metadata = insert sid (edited_once meta) m.metadata;
  }

  -- The stores answer: PostgreSQL commits.
  abbrev pub commits : Answers → Bool → Bool → List State → List State → Met State
  commits on_load on_save_redis redis_ok during_save during_checkpoint = record {
    on_load = on_load;
    on_save = record { database_ok = true; redis_ok = on_save_redis };
    redis_ok = redis_ok;
    during_save = during_save;
    during_checkpoint = during_checkpoint;
  }

  abbrev pub with_documents : Documents crdt → Site py crdt → Site py crdt
  with_documents docs s = let room = s.room in record s { room = record room { docs = docs } }

  abbrev pub sent_from : Site py crdt → Documents crdt → List (ℕ × Bytes) → Site py crdt
  sent_from s docs sent =
      let room = s.room in record s { room = record room { docs = docs; sent = sent } }

  module _ (codec : Codec py crdt) (alive : ℕ → Bool) (on_load : Answers)
      (on_save_redis redis_ok : Bool) (during_save during_checkpoint : List State) where
    abbrev met : Met State
    met = commits on_load on_save_redis redis_ok during_save during_checkpoint

    read_text_live :
        (sid : ℕ) (m : Documents crdt) (doc : Doc)
        → lookup sid m.docs ≡ some doc
        → read_text crdt sid m ≡ crdt.text doc
    unfolding read_text
    read_text_live sid m doc live = rw (live, read_text) refl

    capture_lem :
        (as_code : crdt.Text → String) (str : ℕ → ℕ) (sid caller : ℕ) (s : Site py crdt)
        (session : Session) (doc : Doc)
        → require_current_editor s.db sid caller ≡ ok tt
        → lookup sid s.db.sessions ≡ some session
        → lookup sid s.room.docs.docs ≡ some doc
        → (docs : Documents crdt) × (capture py crdt codec alive met as_code str sid caller s
            ≡ (ok (as_code (crdt.text doc), session.language), with_documents docs s))
          × (docs.rows ≡ s.room.docs.rows)
          × TouchesOnly crdt sid s.room.docs docs
    unfolding capture
    capture_lem as_code str sid caller s session doc current found live =
        let m = s.room.docs in
        let m1 = leave crdt sid (enter crdt sid m) in
        let loaded = load_from_storage_live crdt on_load sid m doc live in
        let still = read_text_live sid m1 doc (left_docs crdt sid (enter crdt sid m) live) in
        elim (Bool-cases (is_occupied (s.room.hub.rooms sid))) [
          | inl occupied ↦ (
            m1,
            rw (current, found, loaded, occupied) (rw still refl),
            rows-leave crdt sid (enter crdt sid m),
            λ j apart. reentered-SameAt crdt sid j apart m,
          )
          | inr orphan ↦ (
            (checkpoint_and_remove crdt redis_ok during_checkpoint sid m1).1,
            rw (current, found, loaded, orphan) (rw still refl),
            rows-checkpoint_and_remove crdt redis_ok during_checkpoint sid m1
                ∙ rows-leave crdt sid (enter crdt sid m),
            λ j apart.
                SameAt-trans crdt j m m1 _ (reentered-SameAt crdt sid j apart m)
                  (checkpoint_and_remove-SameAt crdt sid j apart redis_ok during_checkpoint m1),
          )
        ]

    -- A run by an editor of a session whose document is live: the job is made for the text that the document
    -- has under the lock, in the session's language and the caller's name; the request is answered with
    -- the queued execution if Redis takes the job and with 503 if not. No row of a document changes, nor do
    -- the documents, metadata and checkpoints of other sessions; the hub, the awareness states, what was
    -- sent and the tables are as before.
    pub run_captures_text :
        (as_code : crdt.Text → String) (str : ℕ → ℕ) (asked : Db) (sid caller id : ℕ)
        (s : Site py crdt) (session : Session) (doc : Doc)
        → role_checker editor asked sid caller ≡ ok caller
        → require_current_editor s.db sid caller ≡ ok tt
        → lookup sid s.db.sessions ≡ some session
        → lookup sid s.room.docs.docs ≡ some doc
        → let code = as_code (crdt.text doc) in
          (docs : Documents crdt) × (run_document py crdt codec alive met as_code str asked sid
              caller id s
            ≡ (
              if redis_ok then ok (new_execution id sid caller code session.language) else err 503,
              record (with_documents docs s) {
                world =
                    (create_queued_execution str redis_ok id sid caller code session.language
                      s.world).1;
              },
            ))
          × (docs.rows ≡ s.room.docs.rows)
          × TouchesOnly crdt sid s.room.docs docs
    unfolding run_document create_queued_execution http_status
    run_captures_text as_code str asked sid caller id s session doc permitted current found live =
        let (docs, captured, rows, others) =
          capture_lem as_code str sid caller s session doc current found live in
        elim (Bool-cases redis_ok) [
          | inl yes_redis ↦ (docs, rw (permitted, captured, yes_redis) refl, rows, others)
          | inr no_redis ↦ (docs, rw (permitted, captured, no_redis) refl, rows, others)
        ]
