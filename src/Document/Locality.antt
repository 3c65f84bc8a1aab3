-- ===== src/Document/Locality.antt =====
-- backend/app/collaboration/document.py keeps the sessions apart: a call for one of them leaves the
-- documents, the metadata, the checkpoints and the rows of every other.
pub mod Calls
use code_collaborator.Base.{
  ℕ, ◌≡◌, refl, ◌∙◌, ap, Bool, true, false, Option, none, some, List, [], ◌∷◌, ◌==◌, Bool-cases,
  Result-cases, inl, inr, arith,
}
use code_collaborator.Base.Dict.{Dict, lookup, insert, erase, lookup-insert, lookup-erase}
use code_collaborator.Document.{
  Crdt, Metadata, StoredDocument, Documents, Answers, publish_new_doc, get_or_create,
  get_or_create_found, bump, applied, apply_update, apply_updates, contains,
}
use code_collaborator.Document.Storage.{
  enter, leave, serialized, publish_loaded, load_found, load_locked, checkpoint_found,
  checkpoint_locked, checkpoint_to_redis, mark_checkpoint, drop_doc, evict_found, evict_locked,
  checkpoint_and_remove, save_row, mark_saved, persist_loaded, persist_locked, persist_to_db,
}
use code_collaborator.Document.Eviction.{leave_keeps}

module _ {V : Type 0} (sid j : ℕ) (apart : (sid == j) ≡ false) where
  pub insert-apart : (v : V) (d : Dict V) → lookup j (insert sid v d) ≡ lookup j d
  insert-apart v d = lookup-insert sid j v d ∙ rw apart refl

  erase-apart : (d : Dict V) → lookup j (erase sid d) ≡ lookup j d
  erase-apart d = lookup-erase sid j d ∙ rw apart refl

module _ (crdt : Crdt) where
  open crdt use {Doc, State, Vector, Hash}

  -- The session has the same document, metadata, checkpoint and row.
  pub record SameAt (j : ℕ) (m m' : Documents crdt) : Type 0 where
    pub docs : lookup j m'.docs ≡ lookup j m.docs
    pub metadata : lookup j m'.metadata ≡ lookup j m.metadata
    pub checkpoints : lookup j m'.checkpoints ≡ lookup j m.checkpoints
    pub rows : lookup j m'.rows ≡ lookup j m.rows

  pub SameAt-refl : (j : ℕ) (m : Documents crdt) → SameAt j m m
  SameAt-refl j m = record { docs = refl; metadata = refl; checkpoints = refl; rows = refl }

  pub SameAt-trans : (j : ℕ) (a b c : Documents crdt) → SameAt j a b → SameAt j b c → SameAt j a c
  SameAt-trans j a b c p q = record {
    docs = q.docs ∙ p.docs;
    metadata = q.metadata ∙ p.metadata;
    checkpoints = q.checkpoints ∙ p.checkpoints;
    rows = q.rows ∙ p.rows;
  }

  -- Of the documents, the metadata, the checkpoints and the rows, those of all other sessions are the same.
  abbrev pub TouchesOnly : ℕ → Documents crdt → Documents crdt → Type 0
  TouchesOnly sid m m' = (j : ℕ) → (sid == j) ≡ false → SameAt j m m'

  module _ (sid j : ℕ) (apart : (sid == j) ≡ false) where
    set_doc-SameAt :
        (doc : Doc) (m : Documents crdt) → SameAt j m (record m { docs = insert sid doc m.docs })
    set_doc-SameAt doc m = record {
      docs = insert-apart sid j apart doc m.docs;
      metadata = refl;
      checkpoints = refl;
      rows = refl;
    }

    pub set_metadata-SameAt :
        (meta : Metadata Vector Hash) (m : Documents crdt)
        → SameAt j m (record m { metadata = insert sid meta m.metadata })
    set_metadata-SameAt meta m = record {
      docs = refl;
      metadata = insert-apart sid j apart meta m.metadata;
      checkpoints = refl;
      rows = refl;
    }

    pub set_both-SameAt :
        (doc : Doc) (meta : Metadata Vector Hash) (m : Documents crdt)
        → SameAt j m
            (record m { docs = insert sid doc m.docs; metadata = insert sid meta m.metadata })
    set_both-SameAt doc meta m = record {
      docs = insert-apart sid j apart doc m.docs;
      metadata = insert-apart sid j apart meta m.metadata;
      checkpoints = refl;
      rows = refl;
    }

    set_checkpoint-SameAt :
        (state : State) (m : Documents crdt)
        → SameAt j m (record m { checkpoints = insert sid state m.checkpoints })
    set_checkpoint-SameAt state m = record {
      docs = refl;
      metadata = refl;
      checkpoints = insert-apart sid j apart state m.checkpoints;
      rows = refl;
    }

    pub drop_doc-SameAt : (m : Documents crdt) → SameAt j m (drop_doc crdt sid m)
    drop_doc-SameAt m = record {
      docs = erase-apart sid j apart m.docs;
      metadata = erase-apart sid j apart m.metadata;
      checkpoints = refl;
      rows = refl;
    }

    get_or_create_found-SameAt :
        (o : Option Doc) (m : Documents crdt) → SameAt j m (get_or_create_found crdt sid o m).1
    unfolding get_or_create_found publish_new_doc
    get_or_create_found-SameAt (some doc) m = SameAt-refl j m
    get_or_create_found-SameAt none m = elim (Bool-cases (contains sid m.loading)) [
      | inl loads ↦ rw loads (SameAt-refl j m)
      | inr idle ↦ rw idle (set_both-SameAt _ _ m)
    ]

    bump-SameAt :
        (o : Option (Metadata Vector Hash)) (m : Documents crdt) → SameAt j m (bump crdt sid o m).1
    unfolding bump
    bump-SameAt none m = SameAt-refl j m
    bump-SameAt (some meta) m = set_metadata-SameAt _ m

    applied-SameAt : (o : Option Doc) (m : Documents crdt) → SameAt j m (applied crdt sid o m).1
    unfolding applied
    applied-SameAt none m = SameAt-refl j m
    applied-SameAt (some doc) m =
        let m' : Documents crdt = record m { docs = insert sid doc m.docs } in
        SameAt-trans j m m' _ (set_doc-SameAt doc m) (bump-SameAt (lookup sid m'.metadata) m')

    pub apply_update-SameAt :
        (update : State) (m : Documents crdt) → SameAt j m (apply_update crdt sid update m).1
    unfolding apply_update get_or_create
    apply_update-SameAt update m =
        let (r, m') = get_or_create crdt sid m in
        let first : SameAt j m m' = get_or_create_found-SameAt (lookup sid m.docs) m in
        elim (Result-cases r) [
          | inl (doc, made) ↦
              rw (made, apply_update)
                (SameAt-trans j m m' _ first (applied-SameAt (crdt.apply update doc) m'))
          | inr (e, failed) ↦ rw (failed, apply_update) first
        ]

    pub apply_updates-SameAt :
        (updates : List State) (m : Documents crdt) → SameAt j m (apply_updates crdt sid updates m)
    unfolding apply_updates
    apply_updates-SameAt [] m = SameAt-refl j m
    apply_updates-SameAt (update ∷ updates) m =
        let m' = (apply_update crdt sid update m).1 in
        SameAt-trans j m m' _ (apply_update-SameAt update m) (apply_updates-SameAt updates m')

    pub leave-SameAt : (m : Documents crdt) → SameAt j m (leave crdt sid m)
    leave-SameAt m =
        let (docs, metadata, checkpoints, rows) = leave_keeps crdt sid m in
        record {
          docs = ap (lookup j) docs;
          metadata = ap (lookup j) metadata;
          checkpoints = ap (lookup j) checkpoints;
          rows = ap (lookup j) rows;
        }

    -- The guard is none of the four.
    pub entered-SameAt : (m m' : Documents crdt) → SameAt j (enter crdt sid m) m' → SameAt j m m'
    entered-SameAt m m' same = record {
      docs = same.docs;
      metadata = same.metadata;
      checkpoints = same.checkpoints;
      rows = same.rows;
    }

    pub reentered-SameAt : (m : Documents crdt) → SameAt j m (leave crdt sid (enter crdt sid m))
    reentered-SameAt m = entered-SameAt m _ (leave-SameAt (enter crdt sid m))

    mark_checkpoint-SameAt :
        (generation : ℕ) (o : Option (Metadata Vector Hash)) (m : Documents crdt)
        → SameAt j m (mark_checkpoint crdt sid generation o m)
    mark_checkpoint-SameAt generation none m = SameAt-refl j m
    mark_checkpoint-SameAt generation (some meta) m = set_metadata-SameAt _ m

    pub checkpoint_found-SameAt :
        (redis_ok : Bool) (edits : List State) (o : Option Doc) (p : Option (Metadata Vector Hash))
        (m : Documents crdt)
        → SameAt j m (checkpoint_found crdt redis_ok edits sid o p m).1
    unfolding checkpoint_found
    checkpoint_found-SameAt false edits (some doc) (some meta) m = apply_updates-SameAt edits m
    checkpoint_found-SameAt true edits (some doc) (some meta) m =
        let m1 = apply_updates crdt sid edits m in
        let state = crdt.get_update doc in
        let m2 : Documents crdt = record m1 { checkpoints = insert sid state m1.checkpoints } in
        SameAt-trans j m m1 _ (apply_updates-SameAt edits m) (
          SameAt-trans j m1 m2 _ (set_checkpoint-SameAt state m1)
            (mark_checkpoint-SameAt meta.generation (lookup sid m2.metadata) m2))
    checkpoint_found-SameAt redis_ok edits (some doc) none m = SameAt-refl j m
    checkpoint_found-SameAt redis_ok edits none p m = SameAt-refl j m
