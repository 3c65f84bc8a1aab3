-- ===== src/Document/Locality/Calls.antt =====
-- The calls of backend/app/collaboration/document.py that use the stores leave the other sessions alone.
use code_collaborator.Base.{
  ℕ, ◌≡◌, refl, Bool, false, Option, none, some, List, ◌==◌, Bool-cases, Result-cases, inl, inr,
  arith,
}
use code_collaborator.Base.Dict.{lookup}
use code_collaborator.Document.{Crdt, Metadata, StoredDocument, Documents, Answers, apply_updates}
use code_collaborator.Document.Storage.{
  enter, serialized, publish_loaded, load_found, load_locked, checkpoint_locked,
  checkpoint_to_redis, evict_found, evict_locked, checkpoint_and_remove, save_row, mark_saved,
  persist_loaded, persist_locked, persist_to_db,
}
use code_collaborator.Document.Locality.{
  insert-apart, SameAt, SameAt-refl, SameAt-trans, set_metadata-SameAt, drop_doc-SameAt,
  apply_updates-SameAt, leave-SameAt, entered-SameAt, checkpoint_found-SameAt,
}

module _ (crdt : Crdt) where
  open crdt use {Doc, State, Vector, Hash}

  module _ (sid j : ℕ) (apart : (sid == j) ≡ false) where
    evict_found-SameAt :
        (redis_ok : Bool) (edits : List State) (o : Option Doc) (p : Option (Metadata Vector Hash))
        (m : Documents crdt)
        → SameAt crdt j m (evict_found crdt redis_ok edits sid o p m).1
    unfolding evict_found checkpoint_locked
    evict_found-SameAt redis_ok edits (some doc) (some meta) m =
        let m1 = (checkpoint_locked crdt redis_ok edits sid m).1 in
        let first : SameAt crdt j m m1 =
          checkpoint_found-SameAt crdt sid j apart redis_ok edits (lookup sid m.docs)
            (lookup sid m.metadata) m in
        let dropped = SameAt-trans crdt j m m1 _ first (drop_doc-SameAt crdt sid j apart m1) in
        ground (arith, first, dropped)
    evict_found-SameAt redis_ok edits (some doc) none m = SameAt-refl crdt j m
    evict_found-SameAt redis_ok edits none p m = SameAt-refl crdt j m

    pub checkpoint_to_redis-SameAt :
        (redis_ok : Bool) (edits : List State) (m : Documents crdt)
        → SameAt crdt j m (checkpoint_to_redis crdt redis_ok edits sid m).1
    unfolding checkpoint_to_redis serialized checkpoint_locked
    checkpoint_to_redis-SameAt redis_ok edits m =
        let found =
          checkpoint_found-SameAt crdt sid j apart redis_ok edits (lookup sid m.docs)
            (lookup sid m.metadata) (enter crdt sid m) in
        SameAt-trans crdt j m _ _ (entered-SameAt crdt sid j apart m _ found)
          (leave-SameAt crdt sid j apart _)

    pub checkpoint_and_remove-SameAt :
        (redis_ok : Bool) (edits : List State) (m : Documents crdt)
        → SameAt crdt j m (checkpoint_and_remove crdt redis_ok edits sid m).1
    unfolding checkpoint_and_remove serialized evict_locked
    checkpoint_and_remove-SameAt redis_ok edits m =
        let found =
          evict_found-SameAt redis_ok edits (lookup sid m.docs) (lookup sid m.metadata)
            (enter crdt sid m) in
        SameAt-trans crdt j m _ _ (entered-SameAt crdt sid j apart m _ found)
          (leave-SameAt crdt sid j apart _)

    load_found-SameAt :
        (answers : Answers) (o : Option Doc) (m : Documents crdt)
        → SameAt crdt j m (load_found crdt answers sid o m).1
    unfolding load_found publish_loaded
    load_found-SameAt answers (some doc) m = SameAt-refl crdt j m
    load_found-SameAt answers none m = elim (Bool-cases answers.database_ok) [
      | inl answered ↦ rw answered (record {
        docs = insert-apart sid j apart _ m.docs;
        metadata = insert-apart sid j apart _ m.metadata;
        checkpoints = refl;
        rows = refl;
      })
      | inr silent ↦
          rw silent (record { docs = refl; metadata = refl; checkpoints = refl; rows = refl })
    ]

    save_row-SameAt :
        (now : ℕ) (state : State) (o : Option (StoredDocument State)) (m : Documents crdt)
        → SameAt crdt j m (save_row crdt sid now state o m)
    save_row-SameAt now state none m = SameAt-refl crdt j m
    save_row-SameAt now state (some row) m = record {
      docs = refl;
      metadata = refl;
      checkpoints = refl;
      rows = insert-apart sid j apart _ m.rows;
    }

    mark_saved-SameAt :
        (doc : Doc) (now : ℕ) (current : Option Doc) (o : Option (Metadata Vector Hash))
        (m : Documents crdt)
        → SameAt crdt j m (mark_saved crdt sid doc now current o m).1
    unfolding mark_saved
    mark_saved-SameAt doc now current none m = SameAt-refl crdt j m
    mark_saved-SameAt doc now current (some meta) m = set_metadata-SameAt crdt sid j apart _ m

    persist_loaded-SameAt :
        (answers : Answers) (edits : List State) (now : ℕ) (doc : Doc) (m : Documents crdt)
        → SameAt crdt j m (persist_loaded crdt answers edits now sid doc m).1
    unfolding persist_loaded
    persist_loaded-SameAt answers edits now doc m =
        let m1 = apply_updates crdt sid edits m in
        let m2 = save_row crdt sid now (crdt.get_update doc) (lookup sid m1.rows) m1 in
        let first = apply_updates-SameAt crdt sid j apart edits m in
        elim (Bool-cases answers.database_ok) [
          | inr silent ↦ rw silent first
          | inl answered ↦ rw answered (
              SameAt-trans crdt j m m1 _ first (
                SameAt-trans crdt j m1 m2 _
                  (save_row-SameAt now (crdt.get_update doc) (lookup sid m1.rows) m1)
                  (mark_saved-SameAt doc now (lookup sid m2.docs) (lookup sid m2.metadata) m2)))
        ]

    persist_locked-SameAt :
        (answers : Answers) (edits : List State) (now : ℕ) (m : Documents crdt)
        → SameAt crdt j m (persist_locked crdt answers edits now sid m).1
    unfolding persist_locked load_locked
    persist_locked-SameAt answers edits now m =
        let (r, m1) = load_locked crdt answers sid m in
        let first : SameAt crdt j m m1 = load_found-SameAt answers (lookup sid m.docs) m in
        elim (Result-cases r) [
          | inl (doc, made) ↦
              rw (made, persist_locked)
                (SameAt-trans crdt j m m1 _ first (persist_loaded-SameAt answers edits now doc m1))
          | inr (e, failed) ↦ rw (failed, persist_locked) first
        ]

    pub persist_to_db-SameAt :
        (answers : Answers) (edits : List State) (now : ℕ) (m : Documents crdt)
        → SameAt crdt j m (persist_to_db crdt answers edits now sid m).1
    unfolding persist_to_db serialized
    persist_to_db-SameAt answers edits now m =
        let found = persist_locked-SameAt answers edits now (enter crdt sid m) in
        SameAt-trans crdt j m _ _ (entered-SameAt crdt sid j apart m _ found)
          (leave-SameAt crdt sid j apart _)
