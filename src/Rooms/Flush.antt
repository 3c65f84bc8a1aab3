-- ===== src/Rooms/Flush.antt =====
-- backend/app/main.py: the periodic checkpoint of all live documents (`_periodic_crdt_flush`) and the last
-- one when the server stops (`lifespan`).
use code_collaborator.Base.{
  ℕ, ◌≡◌, refl, ◌∙◌, ap, sym, subst, arith, Bool, true, false, Option, some, none, List, [], ◌∷◌,
  ◌==◌, Bool-cases, inl, inr,
}
use code_collaborator.Base.Dict.{Dict, lookup, insert, lookup-insert, lookup-insert_self}
use code_collaborator.Protocol.{PyText}
use code_collaborator.Document.{Crdt, Metadata, Documents, apply_updates, contains}
use code_collaborator.Document.Storage.{
  enter, leave, serialized, checkpoint_found, checkpoint_locked, checkpoint_to_redis,
  mark_checkpoint,
}
use code_collaborator.Document.Eviction.{leave_keeps}
use code_collaborator.Rooms.{Room}
use code_collaborator.Rooms.Endpoint.{maintain_document_checkpoint}

abbrev keys : {A : Type 0} → Dict A → List ℕ
keys [] = []
keys ((k, v) ∷ d) = k ∷ keys d

module _ (crdt : Crdt) where
  open crdt use {Doc, State, Vector, Hash, get_update}

  -- `active_sessions`
  unfoldable pub active_sessions : Documents crdt → List ℕ
  active_sessions m = keys m.docs

  -- The loop of `lifespan`: `redis_ok` says for which sessions Redis takes the checkpoint, and what it
  -- raises for another is logged. The server has ended its connections before it runs this, so nothing is
  -- taken to edit a document meanwhile.
  unfoldable pub checkpoint_each : (ℕ → Bool) → List ℕ → Documents crdt → Documents crdt
  checkpoint_each redis_ok [] m = m
  checkpoint_each redis_ok (sid ∷ sids) m =
      checkpoint_each redis_ok sids (checkpoint_to_redis crdt (redis_ok sid) [] sid m).1

  unfoldable pub checkpoint_on_shutdown : (ℕ → Bool) → Documents crdt → Documents crdt
  checkpoint_on_shutdown redis_ok m = checkpoint_each redis_ok (active_sessions m) m

  module _ (py : PyText) where
    -- One round of `_periodic_crdt_flush`, on what arrives while each document is written.
    unfoldable pub flush_each : (ℕ → Bool) → (ℕ → List State) → List ℕ → Room py crdt → Room py crdt
    flush_each redis_ok edits [] s = s
    flush_each redis_ok edits (sid ∷ sids) s =
        flush_each redis_ok edits sids
          (maintain_document_checkpoint py crdt (redis_ok sid) (edits sid) sid s)

    unfoldable pub flush_round : (ℕ → Bool) → (ℕ → List State) → Room py crdt → Room py crdt
    flush_round redis_ok edits s = flush_each redis_ok edits (active_sessions s.docs) s

  -- A session has this document, and some metadata.
  record IsKept (m : Documents crdt) (sid : ℕ) (doc : Doc) : Type 0 where
    has_doc : lookup sid m.docs ≡ some doc
    meta : Metadata Vector Hash
    has_metadata : lookup sid m.metadata ≡ some meta

  insert-kept :
      (j sid : ℕ) (x meta : Metadata Vector Hash) (d : Dict (Metadata Vector Hash))
      → lookup sid d ≡ some meta
      → (y : Metadata Vector Hash) × (lookup sid (insert j x d) ≡ some y)
  insert-kept j sid x meta d found = elim (Bool-cases (j == sid)) [
    | inl same ↦ (x, lookup-insert j sid x d ∙ rw same refl)
    | inr other ↦ (meta, lookup-insert j sid x d ∙ rw other found)
  ]

  marked-IsKept :
      (j generation sid : ℕ) (doc : Doc) (o : Option (Metadata Vector Hash)) (m : Documents crdt)
      → IsKept m sid doc
      → IsKept (mark_checkpoint crdt j generation o m) sid doc
  marked-IsKept j generation sid doc none m k = k
  marked-IsKept j generation sid doc (some x) m k =
      let (y, found) =
        insert-kept j sid (record x { checkpointed_generation = some generation }) k.meta m.metadata
          k.has_metadata in
      record { has_doc = k.has_doc; meta = y; has_metadata = found }

  -- What one call does to the session's document and to its checkpoint.
  found-IsKept :
      (b : Bool) (j sid : ℕ) (doc : Doc) (o : Option Doc) (p : Option (Metadata Vector Hash))
      (m : Documents crdt)
      → IsKept m sid doc
      → IsKept (checkpoint_found crdt b [] j o p m).1 sid doc
  unfolding checkpoint_found apply_updates
  found-IsKept true j sid doc (some d) (some x) m k =
      marked-IsKept j x.generation sid doc (lookup j m.metadata)
        (record m { checkpoints = insert j (get_update d) m.checkpoints })
        (record { has_doc = k.has_doc; meta = k.meta; has_metadata = k.has_metadata })
  found-IsKept false j sid doc (some d) (some x) m k = k
  found-IsKept b j sid doc (some d) none m k = k
  found-IsKept b j sid doc none p m k = k

  checkpoints-mark :
      (j generation : ℕ) (o : Option (Metadata Vector Hash)) (m : Documents crdt)
      → (mark_checkpoint crdt j generation o m).checkpoints ≡ m.checkpoints
  checkpoints-mark j generation none m = refl
  checkpoints-mark j generation (some x) m = refl

  abbrev IsWritten : Documents crdt → (sid : ℕ) → Doc → Type 0
  IsWritten m sid doc = lookup sid m.checkpoints ≡ some (get_update doc)

  found-IsWritten :
      (b : Bool) (j sid : ℕ) (doc : Doc) (o : Option Doc) (p : Option (Metadata Vector Hash))
      (m : Documents crdt)
      → (j ≡ sid → o ≡ some doc)
      → IsWritten m sid doc
      → IsWritten (checkpoint_found crdt b [] j o p m).1 sid doc
  unfolding checkpoint_found apply_updates
  found-IsWritten true j sid doc (some d) (some x) m same w =
      ap (lookup sid) (checkpoints-mark j x.generation (lookup j m.metadata) _)
      ∙ lookup-insert j sid (get_update d) m.checkpoints
      ∙ elim (Bool-cases (j == sid)) [
        | inl e ↦ let p : j ≡ sid = ground arith in rw e (cc (same p))
        | inr e ↦ rw e w
      ]
  found-IsWritten false j sid doc (some d) (some x) m same w = w
  found-IsWritten b j sid doc (some d) none m same w = w
  found-IsWritten b j sid doc none p m same w = w

  found-writes :
      (sid : ℕ) (doc : Doc) (x : Metadata Vector Hash) (m : Documents crdt)
      → IsWritten (checkpoint_found crdt true [] sid (some doc) (some x) m).1 sid doc
  unfolding checkpoint_found apply_updates
  found-writes sid doc x m =
      ap (lookup sid) (checkpoints-mark sid x.generation (lookup sid m.metadata) _)
      ∙ lookup-insert_self sid (get_update doc) m.checkpoints

  leave-IsKept :
      (j sid : ℕ) (doc : Doc) (m : Documents crdt)
      → IsKept m sid doc
      → IsKept (leave crdt j m) sid doc
  leave-IsKept j sid doc m k =
      let same = leave_keeps crdt j m in
      record {
        has_doc = ap (lookup sid) same.0 ∙ k.has_doc;
        meta = k.meta;
        has_metadata = ap (lookup sid) same.1 ∙ k.has_metadata;
      }

  leave-IsWritten :
      (j sid : ℕ) (doc : Doc) (m : Documents crdt)
      → IsWritten m sid doc
      → IsWritten (leave crdt j m) sid doc
  leave-IsWritten j sid doc m w = ap (lookup sid) (leave_keeps crdt j m).2 ∙ w

  abbrev call : Bool → ℕ → Documents crdt → Documents crdt
  call b j m = (checkpoint_to_redis crdt b [] j m).1

  call-IsKept :
      (b : Bool) (j sid : ℕ) (doc : Doc) (m : Documents crdt)
      → IsKept m sid doc
      → IsKept (call b j m) sid doc
  unfolding checkpoint_to_redis serialized checkpoint_locked
  call-IsKept b j sid doc m k = leave-IsKept j sid doc _ (
      found-IsKept b j sid doc (lookup j m.docs) (lookup j m.metadata) (enter crdt j m)
        (record { has_doc = k.has_doc; meta = k.meta; has_metadata = k.has_metadata }))

  call-IsWritten :
      (b : Bool) (j sid : ℕ) (doc : Doc) (m : Documents crdt)
      → IsKept m sid doc
      → IsWritten m sid doc
      → IsWritten (call b j m) sid doc
  unfolding checkpoint_to_redis serialized checkpoint_locked
  call-IsWritten b j sid doc m k w = leave-IsWritten j sid doc _ (
      found-IsWritten b j sid doc (lookup j m.docs) (lookup j m.metadata) (enter crdt j m)
        (λ p. ap (λ (i : ℕ). lookup i m.docs) p ∙ k.has_doc) w)

  call-writes :
      (sid : ℕ) (doc : Doc) (m : Documents crdt)
      → IsKept m sid doc
      → IsWritten (call true sid m) sid doc
  unfolding checkpoint_to_redis serialized checkpoint_locked
  call-writes sid doc m k =
      leave-IsWritten sid sid doc (checkpoint_locked crdt true [] sid (enter crdt sid m)).1
        (rw (k.has_doc, k.has_metadata) (found-writes sid doc k.meta (enter crdt sid m)))

  each-IsWritten :
      (redis_ok : ℕ → Bool) (sids : List ℕ) (sid : ℕ) (doc : Doc) (m : Documents crdt)
      → IsKept m sid doc
      → IsWritten m sid doc
      → IsWritten (checkpoint_each redis_ok sids m) sid doc
  unfolding checkpoint_each
  each-IsWritten redis_ok [] sid doc m k w = w
  each-IsWritten redis_ok (j ∷ js) sid doc m k w =
      each-IsWritten redis_ok js sid doc (call (redis_ok j) j m)
        (call-IsKept (redis_ok j) j sid doc m k) (call-IsWritten (redis_ok j) j sid doc m k w)

  each-writes :
      (redis_ok : ℕ → Bool) (sids : List ℕ) (sid : ℕ) (doc : Doc) (m : Documents crdt)
      → IsKept m sid doc
      → redis_ok sid ≡ true
      → contains sid sids ≡ true
      → IsWritten (checkpoint_each redis_ok sids m) sid doc
  unfolding checkpoint_each
  each-writes redis_ok [] sid doc m k up listed = cc
  each-writes redis_ok (j ∷ js) sid doc m k up listed =
      let next = call-IsKept (redis_ok j) j sid doc m k in
      elim (Bool-cases (j == sid)) [
        | inr other ↦
            each-writes redis_ok js sid doc (call (redis_ok j) j m) next up
              (ground (arith, listed, other))
        | inl same ↦
            let p : j ≡ sid = ground arith in
            each-IsWritten redis_ok js sid doc (call (redis_ok j) j m) next (
              subst (λ (i : ℕ). IsWritten (call (redis_ok i) i m) sid doc) (sym p)
                (rw up (call-writes sid doc m k)))
      ]

  listed :
      {A : Type 0} (k : ℕ) (d : Dict A) {v : A} → lookup k d ≡ some v → contains k (keys d) ≡ true
  listed k [] e = cc
  listed k ((j, w) ∷ d) {v} e = elim (Bool-cases (j == k)) [
    | inl same ↦ rw same refl
    | inr other ↦ rw other (listed k d {v = v} (ground arith))
  ]

  -- When the server stops, each document that is live is written to Redis as it is, whatever happens to the
  -- checkpoints of the other sessions, as long as Redis takes its own.
  pub shutdown_checkpoints_all :
      (redis_ok : ℕ → Bool) (m : Documents crdt) (sid : ℕ) (doc : Doc) (meta : Metadata Vector Hash)
      → lookup sid m.docs ≡ some doc
      → lookup sid m.metadata ≡ some meta
      → redis_ok sid ≡ true
      → lookup sid (checkpoint_on_shutdown redis_ok m).checkpoints ≡ some (get_update doc)
  unfolding checkpoint_on_shutdown active_sessions
  shutdown_checkpoints_all redis_ok m sid doc meta has_doc has_metadata up =
      each-writes redis_ok (keys m.docs) sid doc m
        (record { has_doc = has_doc; meta = meta; has_metadata = has_metadata }) up
        (listed sid m.docs has_doc)
