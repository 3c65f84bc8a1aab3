-- ===== src/Document/Rows.antt =====
-- What document.py leaves alone: only a save writes the rows of PostgreSQL.
use code_collaborator.Base.{
  ℕ, ◌≡◌, refl, ◌∙◌, ap, sym, subst, Bool, true, false, Option, none, some, List, [], ◌∷◌, Result,
  ok, err, Bool-cases, inl, inr, arith,
}
use code_collaborator.Base.Dict.{Dict, lookup}
use code_collaborator.Document.{
  Crdt, Metadata, Documents, DocumentError, publish_new_doc, Answers, get_or_create,
  get_or_create_found, bump, applied, apply_update, apply_updates, contains,
}
use code_collaborator.Document.Storage.{
  enter, leave, serialized, load_found, load_locked, load_from_storage, checkpoint_found,
  checkpoint_locked, checkpoint_to_redis, mark_checkpoint, evict_found, evict_locked,
  checkpoint_and_remove,
}
use code_collaborator.Document.Generations.{IsLive}
use code_collaborator.Document.Eviction.{leave_keeps, left_docs}

module _ (crdt : Crdt) where
  open crdt use {Doc, State, Vector, Hash}

  rows-get_or_create_found :
      (sid : ℕ) (o : Option Doc) (m : Documents crdt)
      → (get_or_create_found crdt sid o m).1.rows ≡ m.rows
  unfolding get_or_create_found publish_new_doc
  rows-get_or_create_found sid (some doc) m = refl
  rows-get_or_create_found sid none m = elim (Bool-cases (contains sid m.loading)) [
    | inl e ↦ rw e refl
    | inr e ↦ rw e refl
  ]

  rows-get_or_create : (sid : ℕ) (m : Documents crdt) → (get_or_create crdt sid m).1.rows ≡ m.rows
  unfolding get_or_create
  rows-get_or_create sid m = rows-get_or_create_found sid (lookup sid m.docs) m

  rows-bump :
      (sid : ℕ) (o : Option (Metadata Vector Hash)) (m : Documents crdt)
      → (bump crdt sid o m).1.rows ≡ m.rows
  unfolding bump
  rows-bump sid none m = refl
  rows-bump sid (some meta) m = refl

  rows-applied :
      (sid : ℕ) (o : Option Doc) (m : Documents crdt) → (applied crdt sid o m).1.rows ≡ m.rows
  unfolding applied
  rows-applied sid none m = refl
  rows-applied sid (some doc) m = rows-bump sid (lookup sid m.metadata) _

  rows-apply_to :
      (sid : ℕ) (update : State) (r : Result DocumentError Doc) (m : Documents crdt)
      → (elim r as (λ _. Result DocumentError (Unit {0}) × Documents crdt) [
        | err e ↦ (err e, m)
        | ok doc ↦ applied crdt sid (crdt.apply update doc) m
      ]).1.rows
        ≡ m.rows
  rows-apply_to sid update (ok doc) m = rows-applied sid (crdt.apply update doc) m
  rows-apply_to sid update (err e) m = refl

  pub rows-apply_update :
      (sid : ℕ) (update : State) (m : Documents crdt)
      → (apply_update crdt sid update m).1.rows ≡ m.rows
  unfolding apply_update
  rows-apply_update sid update m =
      rows-apply_to sid update (get_or_create crdt sid m).0 (get_or_create crdt sid m).1
      ∙ rows-get_or_create sid m

  rows-apply_updates :
      (sid : ℕ) (updates : List State) (m : Documents crdt)
      → (apply_updates crdt sid updates m).rows ≡ m.rows
  unfolding apply_updates
  rows-apply_updates sid [] m = refl
  rows-apply_updates sid (update ∷ updates) m =
      rows-apply_updates sid updates (apply_update crdt sid update m).1
      ∙ rows-apply_update sid update m

  rows-mark_checkpoint :
      (sid generation : ℕ) (o : Option (Metadata Vector Hash)) (m : Documents crdt)
      → (mark_checkpoint crdt sid generation o m).rows ≡ m.rows
  rows-mark_checkpoint sid generation none m = refl
  rows-mark_checkpoint sid generation (some meta) m = refl

  rows-checkpoint_found :
      (redis_ok : Bool) (edits : List State) (sid : ℕ) (o : Option Doc)
      (p : Option (Metadata Vector Hash)) (m : Documents crdt)
      → (checkpoint_found crdt redis_ok edits sid o p m).1.rows ≡ m.rows
  unfolding checkpoint_found
  rows-checkpoint_found true edits sid (some doc) (some meta) m =
      rows-mark_checkpoint sid meta.generation _ _ ∙ rows-apply_updates sid edits m
  rows-checkpoint_found false edits sid (some doc) (some meta) m = rows-apply_updates sid edits m
  rows-checkpoint_found redis_ok edits sid (some doc) none m = refl
  rows-checkpoint_found redis_ok edits sid none p m = refl

  rows-checkpoint_locked :
      (redis_ok : Bool) (edits : List State) (sid : ℕ) (m : Documents crdt)
      → (checkpoint_locked crdt redis_ok edits sid m).1.rows ≡ m.rows
  unfolding checkpoint_locked
  rows-checkpoint_locked redis_ok edits sid m =
      rows-checkpoint_found redis_ok edits sid (lookup sid m.docs) (lookup sid m.metadata) m

  pub rows-leave : (sid : ℕ) (m : Documents crdt) → (leave crdt sid m).rows ≡ m.rows
  rows-leave sid m = (leave_keeps crdt sid m).3

  pub rows-checkpoint_to_redis :
      (redis_ok : Bool) (edits : List State) (sid : ℕ) (m : Documents crdt)
      → (checkpoint_to_redis crdt redis_ok edits sid m).1.rows ≡ m.rows
  unfolding checkpoint_to_redis serialized
  rows-checkpoint_to_redis redis_ok edits sid m =
      rows-leave sid _ ∙ rows-checkpoint_locked redis_ok edits sid (enter crdt sid m)

  rows-evict_found :
      (redis_ok : Bool) (edits : List State) (sid : ℕ) (o : Option Doc)
      (p : Option (Metadata Vector Hash)) (m : Documents crdt)
      → (evict_found crdt redis_ok edits sid o p m).1.rows ≡ m.rows
  unfolding evict_found
  rows-evict_found redis_ok edits sid (some doc) (some meta) m =
      ground (arith, rows-checkpoint_locked redis_ok edits sid m)
  rows-evict_found redis_ok edits sid (some doc) none m = refl
  rows-evict_found redis_ok edits sid none p m = refl

  pub rows-checkpoint_and_remove :
      (redis_ok : Bool) (edits : List State) (sid : ℕ) (m : Documents crdt)
      → (checkpoint_and_remove crdt redis_ok edits sid m).1.rows ≡ m.rows
  unfolding checkpoint_and_remove serialized evict_locked
  rows-checkpoint_and_remove redis_ok edits sid m =
      rows-leave sid _
      ∙ rows-evict_found redis_ok edits sid (lookup sid m.docs) (lookup sid m.metadata)
          (enter crdt sid m)

  load_locked_live :
      (answers : Answers) (sid : ℕ) (m : Documents crdt) (doc : Doc)
      → lookup sid m.docs ≡ some doc
      → load_locked crdt answers sid m ≡ (ok doc, m)
  unfolding load_locked load_found
  load_locked_live answers sid m doc found = rw found refl

  -- Loading a live document only takes its guard and gives it back.
  pub load_from_storage_live :
      (answers : Answers) (sid : ℕ) (m : Documents crdt) (doc : Doc)
      → lookup sid m.docs ≡ some doc
      → load_from_storage crdt answers sid m ≡ (ok doc, leave crdt sid (enter crdt sid m))
  unfolding load_from_storage serialized
  load_from_storage_live answers sid m doc live =
      ap (λ (p : Result DocumentError Doc × Documents crdt). (p.0, leave crdt sid p.1))
        (load_locked_live answers sid (enter crdt sid m) doc live)

  pub reentered-IsLive :
      (sid : ℕ) (m : Documents crdt) (doc : Doc) (meta : Metadata Vector Hash)
      → IsLive crdt m sid doc meta
      → IsLive crdt (leave crdt sid (enter crdt sid m)) sid doc meta
  reentered-IsLive sid m doc meta live = record {
    has_doc = left_docs crdt sid (enter crdt sid m) live.has_doc;
    has_metadata =
        subst (λ (d : Dict (Metadata Vector Hash)). lookup sid d ≡ some meta)
          (sym (leave_keeps crdt sid (enter crdt sid m)).1) live.has_metadata;
  }
