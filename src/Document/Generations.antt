-- ===== src/Document/Generations.antt =====
-- What a client's update does to a live document and its generation (document.py).
use code_collaborator.Base.{
  ℕ, ◌+◌, ◌≡◌, refl, arith, Option, none, some, List, [], ◌∷◌, ok, subst, sym,
}
use code_collaborator.Base.Dict.{lookup, insert, lookup-insert_self}
use code_collaborator.Document.{
  Crdt, Metadata, Documents, get_or_create, get_or_create_found, applied, bump, apply_update,
  apply_updates,
}

module _ (crdt : Crdt) where
  open crdt use {Doc, State, Vector, Hash, apply, get_update}

  abbrev next_doc : Option Doc → Doc → Doc
  next_doc none doc = doc
  next_doc (some doc') doc = doc'

  abbrev counted : Option Doc → ℕ
  counted none = 0
  counted (some doc) = 1

  -- The document after updates, those that raise left out, and the number of the others.
  abbrev pub edited : List State → Doc → Doc
  edited [] doc = doc
  edited (update ∷ updates) doc = edited updates (next_doc (apply update doc) doc)

  abbrev pub accepted : List State → Doc → ℕ
  accepted [] doc = 0
  accepted (update ∷ updates) doc =
      counted (apply update doc) + accepted updates (next_doc (apply update doc) doc)

  abbrev counted_in : Option Doc → Metadata Vector Hash → Metadata Vector Hash
  counted_in none meta = meta
  counted_in (some doc) meta = record meta { generation = meta.generation + 1 }

  -- The metadata after the updates.
  abbrev pub numbered : List State → Doc → Metadata Vector Hash → Metadata Vector Hash
  numbered [] doc meta = meta
  numbered (update ∷ updates) doc meta =
      numbered updates (next_doc (apply update doc) doc) (counted_in (apply update doc) meta)

  counted_in_generation :
      (made : Option Doc) (meta : Metadata Vector Hash)
      → (counted_in made meta).generation ≡ meta.generation + counted made
  counted_in_generation none meta = omega arith
  counted_in_generation (some doc) meta = refl

  pub numbered_generation :
      (updates : List State) (doc : Doc) (meta : Metadata Vector Hash)
      → (numbered updates doc meta).generation ≡ meta.generation + accepted updates doc
  numbered_generation [] doc meta = omega arith
  numbered_generation (update ∷ updates) doc meta =
      let made = apply update doc in
      let rest = numbered_generation updates (next_doc made doc) (counted_in made meta) in
      let first = counted_in_generation made meta in omega arith

  -- A session has this document and this metadata.
  pub record IsLive (m : Documents crdt) (sid : ℕ) (doc : Doc) (meta : Metadata Vector Hash)
      : Type 0 where
    pub has_doc : lookup sid m.docs ≡ some doc
    pub has_metadata : lookup sid m.metadata ≡ some meta

  -- The same stores and guards.
  pub record IsSameStorage (m m' : Documents crdt) : Type 0 where
    pub same_checkpoints : m'.checkpoints ≡ m.checkpoints
    pub same_rows : m'.rows ≡ m.rows
    pub same_users : m'.users ≡ m.users

  pub record IsUpdated (m m' : Documents crdt) (sid : ℕ) (doc : Doc) (meta : Metadata Vector Hash)
      (updates : List State) : Type 0 where
    pub live : IsLive m' sid (edited updates doc) (numbered updates doc meta)
    pub storage : IsSameStorage m m'

  pub get_or_create_live :
      (sid : ℕ) (m : Documents crdt) (doc : Doc)
      → lookup sid m.docs ≡ some doc
      → get_or_create crdt sid m ≡ (ok doc, m)
  unfolding get_or_create get_or_create_found
  get_or_create_live sid m doc found = rw found refl

  apply_update_raised :
      (sid : ℕ) (update : State) (m : Documents crdt) (doc : Doc)
      → lookup sid m.docs ≡ some doc
      → apply update doc ≡ none
      → (apply_update crdt sid update m).1 ≡ m
  unfolding apply_update applied
  apply_update_raised sid update m doc found raised =
      ground (arith, get_or_create_live sid m doc found, raised)

  apply_update_made :
      (sid : ℕ) (update : State) (m : Documents crdt) (doc doc' : Doc) (meta : Metadata Vector Hash)
      → IsLive m sid doc meta
      → apply update doc ≡ some doc'
      → (apply_update crdt sid update m).1 ≡ record m {
        docs = insert sid doc' m.docs;
        metadata = insert sid (counted_in (some doc) meta) m.metadata;
      }
  unfolding apply_update applied bump
  apply_update_made sid update m doc doc' meta live made =
      ground (arith, get_or_create_live sid m doc live.has_doc, made, live.has_metadata)

  same_storage : {m : Documents crdt} → IsSameStorage m m
  same_storage = record { same_checkpoints = refl; same_rows = refl; same_users = refl }

  -- One update, applied or refused, as `made` says.
  after_one :
      (sid : ℕ) (update : State) (m : Documents crdt) (doc : Doc) (meta : Metadata Vector Hash)
      (made : Option Doc)
      → apply update doc ≡ made
      → IsLive m sid doc meta
      → IsLive (apply_update crdt sid update m).1 sid (next_doc made doc) (counted_in made meta)
        × IsSameStorage m (apply_update crdt sid update m).1
  after_one sid update m doc meta none e live =
      subst (λ (w : Documents crdt). IsLive w sid doc meta × IsSameStorage m w)
        (sym (apply_update_raised sid update m doc live.has_doc e)) (live, same_storage)
  after_one sid update m doc meta (some doc') e live =
      subst
        (λ (w : Documents crdt). IsLive w sid doc' (counted_in (some doc) meta) × IsSameStorage m w)
        (sym (apply_update_made sid update m doc doc' meta live e))
        (
          record {
            has_doc = lookup-insert_self sid doc' m.docs;
            has_metadata = lookup-insert_self sid (counted_in (some doc) meta) m.metadata;
          },
          record { same_checkpoints = refl; same_rows = refl; same_users = refl },
        )

  pub apply_updates-IsUpdated :
      (sid : ℕ) (updates : List State) (m : Documents crdt) (doc : Doc)
      (meta : Metadata Vector Hash)
      → IsLive m sid doc meta
      → IsUpdated m (apply_updates crdt sid updates m) sid doc meta updates
  unfolding apply_updates
  apply_updates-IsUpdated sid [] m doc meta live = record { live = live; storage = same_storage }
  apply_updates-IsUpdated sid (update ∷ updates) m doc meta live =
      let made = apply update doc in
      let (one, same) = after_one sid update m doc meta made refl live in
      let rest =
        apply_updates-IsUpdated sid updates (apply_update crdt sid update m).1 (next_doc made doc)
          (counted_in made meta) one in
      record {
        live = rest.live;
        storage = record {
          same_checkpoints = cc (same.same_checkpoints, rest.storage.same_checkpoints);
          same_rows = cc (same.same_rows, rest.storage.same_rows);
          same_users = cc (same.same_users, rest.storage.same_users);
        };
      }
