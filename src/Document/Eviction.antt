-- ===== src/Document/Eviction.antt =====
-- What the storage calls of document.py guarantee: a document leaves memory only when Redis has it.
use code_collaborator.Base.{
  ℕ, ◌≡◌, ◌<◌, refl, arith, true, false, Option, none, some, List, if◌then◌else◌, ok, err, ◌==◌,
  subst, sym,
}
use code_collaborator.Base.Dict.{Dict, lookup, insert, erase, lookup-insert_self, lookup-erase}
use code_collaborator.Document.{Crdt, Metadata, Documents, redis_failed, apply_updates}
use code_collaborator.Document.Storage.{
  enter, leave, serialized, checkpoint_found, checkpoint_locked, evict_found, evict_locked,
  checkpoint_and_remove,
}
use code_collaborator.Document.Generations.{
  edited, accepted, numbered, numbered_generation, IsLive, apply_updates-IsUpdated,
}

module _ (crdt : Crdt) where
  open crdt use {Doc, State, Vector, Hash, get_update, get_state, state_hash, same_hash, size}

  pub leave_keeps :
      (sid : ℕ) (m : Documents crdt)
      → ((leave crdt sid m).docs ≡ m.docs)
        × ((leave crdt sid m).metadata ≡ m.metadata)
        × ((leave crdt sid m).checkpoints ≡ m.checkpoints)
        × ((leave crdt sid m).rows ≡ m.rows)
  leave_keeps sid m = ground arith

  pub left_docs :
      (sid : ℕ) (m : Documents crdt) {o : Option Doc}
      → lookup sid m.docs ≡ o
      → lookup sid (leave crdt sid m).docs ≡ o
  left_docs sid m {o} found =
      subst (λ (d : Dict Doc). lookup sid d ≡ o) (sym (leave_keeps sid m).0) found

  left_checkpoints :
      (sid : ℕ) (m : Documents crdt) {o : Option State}
      → lookup sid m.checkpoints ≡ o
      → lookup sid (leave crdt sid m).checkpoints ≡ o
  left_checkpoints sid m {o} found =
      subst (λ (d : Dict State). lookup sid d ≡ o) (sym (leave_keeps sid m).2) found

  pub enter-IsLive :
      (sid : ℕ) (m : Documents crdt) (doc : Doc) (meta : Metadata Vector Hash)
      → IsLive crdt m sid doc meta
      → IsLive crdt (enter crdt sid m) sid doc meta
  enter-IsLive sid m doc meta live = record {
    has_doc = live.has_doc;
    has_metadata = live.has_metadata;
  }

  -- The metadata after a checkpoint, and what the whole call leaves.
  abbrev marked : List State → Doc → Metadata Vector Hash → Metadata Vector Hash
  marked edits doc meta = record (numbered crdt edits doc meta) {
    checkpointed_generation = some meta.generation;
  }

  abbrev after_checkpoint :
      ℕ → List State → Doc → Metadata Vector Hash → Documents crdt → Documents crdt
  after_checkpoint sid edits doc meta m =
      let m1 = apply_updates crdt sid edits m in
      record m1 {
        checkpoints = insert sid (get_update doc) m1.checkpoints;
        metadata = insert sid (marked edits doc meta) m1.metadata;
      }

  checkpoint_locked_lem :
      (sid : ℕ) (edits : List State) (m : Documents crdt) (doc : Doc) (meta : Metadata Vector Hash)
      → IsLive crdt m sid doc meta
      → checkpoint_locked crdt true edits sid m
        ≡ (ok (size (get_update doc)), after_checkpoint sid edits doc meta m)
  unfolding checkpoint_locked checkpoint_found
  checkpoint_locked_lem sid edits m doc meta live =
      let updated = apply_updates-IsUpdated crdt sid edits m doc meta live in
      rw (live.has_doc, live.has_metadata, updated.live.has_metadata) refl

  checkpoint_locked_failed :
      (sid : ℕ) (edits : List State) (m : Documents crdt) (doc : Doc) (meta : Metadata Vector Hash)
      → IsLive crdt m sid doc meta
      → checkpoint_locked crdt false edits sid m
        ≡ (err redis_failed, apply_updates crdt sid edits m)
  unfolding checkpoint_locked checkpoint_found
  checkpoint_locked_failed sid edits m doc meta live = rw (live.has_doc, live.has_metadata) refl

  abbrev evicted : ℕ → Documents crdt → Documents crdt
  evicted sid m = record m { docs = erase sid m.docs; metadata = erase sid m.metadata }

  evict_locked_lem :
      (sid : ℕ) (edits : List State) (m : Documents crdt) (doc : Doc) (meta : Metadata Vector Hash)
      → IsLive crdt m sid doc meta
      → evict_locked crdt true edits sid m ≡ (
          let m1 = after_checkpoint sid edits doc meta m in
          if (numbered crdt edits doc meta).generation == meta.generation
          then (ok true, evicted sid m1)
          else (ok false, m1))
  unfolding evict_locked evict_found
  evict_locked_lem sid edits m doc meta live =
      let m1 = apply_updates crdt sid edits m in
      let found = lookup-insert_self sid (marked edits doc meta) m1.metadata in
      rw (live.has_doc, live.has_metadata)
        (ground (arith, checkpoint_locked_lem sid edits m doc meta live, found))

  evict_locked_failed :
      (sid : ℕ) (edits : List State) (m : Documents crdt) (doc : Doc) (meta : Metadata Vector Hash)
      → IsLive crdt m sid doc meta
      → evict_locked crdt false edits sid m ≡ (err redis_failed, apply_updates crdt sid edits m)
  unfolding evict_locked evict_found
  evict_locked_failed sid edits m doc meta live =
      rw (live.has_doc, live.has_metadata)
        (ground (arith, checkpoint_locked_failed sid edits m doc meta live))

  -- Evicting a live document: if no update was accepted while Redis was
  -- written, the call returns true, and the document is gone with its whole state in Redis. If some was,
  -- it returns false, and the document stays with those edits. If Redis fails the call raises, and the
  -- document stays with those edits as well.
  pub checkpoint_and_remove_lem :
      (sid : ℕ) (edits : List State) (m : Documents crdt) (doc : Doc) (meta : Metadata Vector Hash)
      → IsLive crdt m sid doc meta
      → let (r, m') = checkpoint_and_remove crdt true edits sid m in
        let (r', m'') = checkpoint_and_remove crdt false edits sid m in
        (accepted crdt edits doc ≡ 0
          → (r ≡ ok true)
            × (lookup sid m'.docs ≡ none)
            × (lookup sid m'.checkpoints ≡ some (get_update doc)))
        × (0 < accepted crdt edits doc
            → (r ≡ ok false)
              × (lookup sid m'.docs ≡ some (edited crdt edits doc))
              × (lookup sid m'.checkpoints ≡ some (get_update doc)))
        × ((r' ≡ err redis_failed) × (lookup sid m''.docs ≡ some (edited crdt edits doc)))
  unfolding checkpoint_and_remove serialized
  checkpoint_and_remove_lem sid edits m doc meta live =
      let entered = enter-IsLive sid m doc meta live in
      let inside = enter crdt sid m in
      let e = evict_locked_lem sid edits inside doc meta entered in
      let f = evict_locked_failed sid edits inside doc meta entered in
      let after = after_checkpoint sid edits doc meta inside in
      let counted = numbered_generation crdt edits doc meta in
      let updated = apply_updates-IsUpdated crdt sid edits inside doc meta entered in
      let stored =
        lookup-insert_self sid (get_update doc) (apply_updates crdt sid edits inside).checkpoints in
      let gone : lookup sid (erase sid after.docs) ≡ none =
        ground (arith, lookup-erase sid sid after.docs) in
      (
        λ idle.
            let same : ((numbered crdt edits doc meta).generation == meta.generation) ≡ true =
              ground arith in
            rw (e, same)
              (
                refl,
                left_docs sid (evicted sid after) gone,
                left_checkpoints sid (evicted sid after) stored,
              ),
        λ busy.
            let other : ((numbered crdt edits doc meta).generation == meta.generation) ≡ false =
              ground arith in
            rw (e, other)
              (refl, left_docs sid after updated.live.has_doc, left_checkpoints sid after stored),
        rw f (refl, left_docs sid (apply_updates crdt sid edits inside) updated.live.has_doc),
      )
