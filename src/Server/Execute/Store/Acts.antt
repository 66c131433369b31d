-- ===== src/Server/Execute/Store/Acts.antt =====
-- Each command does to the database what it does to the store.
use boutique.Common.{
  ◌≡◌, ◌⊎◌, refl, ap, subst, ◌∙◌, inl, inr, ℕ, true, Option, none, some, [], ◌∷◌, Bytes,
  Option-cases,
}
use boutique.Core.Serialize.{bind_option}
use boutique.Db.Schema.{Schema}
use boutique.Db.Storage
use boutique.Db.Collection
use boutique.Db.Collection.{KeyKind, Collection, null, at, tombstone_key_hash, key_buffer}
use boutique.Db.Collection.Index.{AreUnremoved}
use boutique.Db.Collection.Puts.{Fits}
use boutique.Db.Collection.Contents.{with_doc, without_doc, find_doc}
use boutique.Db.Collection.Writes.{put-Writes}
use boutique.Db.Collection.Removal.{Leaves}
use boutique.Db.Collection.Reached.{
  Reached, Reached-Sound, put-Reached, remove-runs, put-AreUnremoved, remove-Leaves,
  find_doc-Reached,
}
use boutique.Db.Database
use boutique.Db.Database.{Database}
use boutique.Protocol.Messages.{Command, Response}
use boutique.Server.Execute.{
  Outcome, or_not_found, execute, execute_get, execute_put, execute_delete,
}
use boutique.Server.Execute.Store.{
  Table, Store, Act, act, act_create, act_get, act_put, act_delete, act_get_schema,
  act_get_collection_schema, found_or_not, key_of,
}
use boutique.Server.Execute.Store.Tables.{
  HasHash, HasRoom, Keeps, Relates, Refines, Keeps-new, Keeps-hashed, Keeps-Fits, Refines-schema,
  Refines-table,
}

-- What is asked of a command. A schema of which a collection is made has a layout; a key has a hash
-- that is not that of a removed bucket; a document fits, and is not there or there was no delete.
abbrev pub Allows : (KeyKind → Bytes → ℕ) → Store → Command → Type 0
Allows hash w (Command.create_collection name schema_name) =
    (s : Schema) → w.schemas schema_name ≡ some s → (c : Collection) × (Collection.new s ≡ some c)
Allows hash w (Command.get name key) =
    (t : Table) → w.tables name ≡ some t → HasHash hash t.schema key
Allows hash w (Command.put name value) = (t : Table) → w.tables name ≡ some t → HasRoom hash t value
Allows hash w (Command.delete name key) =
    (t : Table) → w.tables name ≡ some t → HasHash hash t.schema key
Allows hash w _ = Unit

-- The command succeeds, with the responses of the store, and the database is as the store says.
abbrev pub Carries : (KeyKind → Bytes → ℕ) → Outcome → Act → Type 0
Carries hash o a = (db' : Database) × (o ≡ some (db', a.1)) × Refines hash db' a.0

module _ (hash : KeyKind → Bytes → ℕ) where
  Keeps-put :
      (c c' : Collection) (t : Table) (value : Bytes) (i : ℕ)
      → Keeps hash c t
      → (f : Fits hash c value) → (t.docs f.key ≡ none) ⊎ AreUnremoved c.buckets
      → Collection.put hash c value ≡ some (c', at i)
      → Reached hash c' (with_doc t.docs f.key value)
      → Keeps hash c' (record t { docs = with_doc t.docs f.key value })
  Keeps-put c c' t value i keeps f free run reached =
      let w =
        put-Writes hash c c' value i (Reached-Sound hash c t.docs keeps.reached).indexed f run in
      record {
        reached = reached;
        same_schema = w.same_schema ∙ keeps.same_schema;
        empty = keeps.empty;
        is_new = keeps.is_new;
        kind = w.kind ∙ keeps.kind;
        offset = w.offset ∙ keeps.offset;
        size = w.stores.size ∙ keeps.size;
        unremoved = λ r.
            put-AreUnremoved hash c c' t.docs value i keeps.reached f free run (keeps.unremoved r);
      }

  Keeps-delete :
      (c c' : Collection) (t : Table) (key : Bytes)
      → Keeps hash c t
      → Leaves c key c'
      → Reached hash c' (without_doc t.docs key)
      → Keeps hash c' (record t { removed = true; docs = without_doc t.docs key })
  Keeps-delete c c' t key keeps (inl (none_has, same)) reached = record {
    reached = reached;
    same_schema = ap (λ x. x.schema) same ∙ keeps.same_schema;
    empty = keeps.empty;
    is_new = keeps.is_new;
    kind = ap (λ x. x.key_kind) same ∙ keeps.kind;
    offset = ap (λ x. x.key_offset) same ∙ keeps.offset;
    size = ap (λ x. x.storage.doc_size) same ∙ keeps.size;
    unremoved = λ r. cc;
  }
  Keeps-delete c c' t key keeps (inr r) reached = record {
    reached = reached;
    same_schema = r.same_schema ∙ keeps.same_schema;
    empty = keeps.empty;
    is_new = keeps.is_new;
    kind = r.kind ∙ keeps.kind;
    offset = r.offset ∙ keeps.offset;
    size = r.removes.size ∙ keeps.size;
    unremoved = λ e. cc;
  }

  execute_get-Carries :
      (db : Database) (w : Store) (key : Bytes) (c : Collection) (t : Table) (o : Option Bytes)
      → Refines hash db w
      → find_doc hash c key ≡ some o
      → Carries hash (execute_get hash db key c) (w, found_or_not o)
  unfolding execute_get find_doc
  execute_get-Carries db w key c t o refines run =
      elim (Option-cases (Collection.find hash c key)) [
        | inl failed ↦ let bad = rw failed at run in cc
        | inr (null, found) ↦
            let e : none ≡ o = let both = rw found at run in cc in
            subst (λ x. Carries hash (execute_get hash db key c) (w, found_or_not x)) e
              (db, rw found, refines)
        | inr (at i, found) ↦
            let e : some (Storage.doc c.storage i) ≡ o = let both = rw found at run in cc in
            subst (λ x. Carries hash (execute_get hash db key c) (w, found_or_not x)) e
              (db, rw found, refines)
      ]

  get-Carries :
      (db : Database) (w : Store) (key : Bytes) (c : Option Collection) (t : Option Table)
      → Refines hash db w
      → Relates hash c t
      → ((t' : Table) → t ≡ some t' → HasHash hash t'.schema key)
      → Carries hash (or_not_found db c (execute_get hash db key)) (act_get w key t)
  get-Carries db w key none none refines keeps ok = (db, refl, refines)
  get-Carries db w key none (some t) refines keeps ok = absurd keeps
  get-Carries db w key (some c) none refines keeps ok = absurd keeps
  get-Carries db w key (some c) (some t) refines keeps ok =
      let k = ok t refl in
      execute_get-Carries db w key c t (t.docs key) refines (
        find_doc-Reached hash c t.docs key k.key_hash keeps.reached
          (Keeps-hashed hash c t key keeps k) k.unremoved)

  put-Carries :
      (db : Database) (w : Store) (name value : Bytes) (c : Option Collection) (t : Option Table)
      → Refines hash db w
      → Relates hash c t
      → ((t' : Table) → t ≡ some t' → HasRoom hash t' value)
      → Carries hash (or_not_found db c (execute_put hash db name value)) (act_put w name value t)
  unfolding execute_put key_of
  put-Carries db w name value none none refines keeps ok = (db, refl, refines)
  put-Carries db w name value none (some t) refines keeps ok = absurd keeps
  put-Carries db w name value (some c) none refines keeps ok = absurd keeps
  put-Carries db w name value (some c) (some t) refines keeps ok =
      let r = ok t refl in
      let (f, same) = Keeps-Fits hash c t value keeps r in
      let free : (t.docs f.key ≡ none) ⊎ AreUnremoved c.buckets = elim r.free [
        | inl absent ↦ inl (ap t.docs same ∙ absent)
        | inr no_delete ↦ inr (keeps.unremoved no_delete)
      ] in
      let (c', i, run, reached) = put-Reached hash c t.docs value keeps.reached f free in
      let key : bind_option (Collection.new t.schema)
            (λ x. key_buffer x.key_kind x.key_offset value)
          ≡ some f.key =
        rw (r.is_new, same) r.fits.with_key in
      (
        Database.update_collection db name c',
        rw (run, key),
        rw key (
            Refines-table hash db w name c' _ refines
              (Keeps-put c c' t value i keeps f free run reached)),
      )

  delete-Carries :
      (db : Database) (w : Store) (name key : Bytes) (c : Option Collection) (t : Option Table)
      → Refines hash db w
      → Relates hash c t
      → ((t' : Table) → t ≡ some t' → HasHash hash t'.schema key)
      → Carries hash (or_not_found db c (execute_delete hash db name key)) (act_delete w name key t)
  unfolding execute_delete
  delete-Carries db w name key none none refines keeps ok = (db, refl, refines)
  delete-Carries db w name key none (some t) refines keeps ok = absurd keeps
  delete-Carries db w name key (some c) none refines keeps ok = absurd keeps
  delete-Carries db w name key (some c) (some t) refines keeps ok =
      let k = ok t refl in
      let hashed = Keeps-hashed hash c t key keeps k in
      let (c', run, reached) =
        remove-runs hash c t.docs key k.key_hash keeps.reached hashed k.unremoved in
      let leaves =
        remove-Leaves hash c c' t.docs key k.key_hash keeps.reached hashed k.unremoved run in
      (
        Database.update_collection db name c',
        rw run,
        Refines-table hash db w name c' _ refines (Keeps-delete c c' t key keeps leaves reached),
      )

  create-Carries :
      (db : Database) (w : Store) (name : Bytes) (s : Option Schema)
      → Refines hash db w
      → ((s' : Schema) → s ≡ some s' → (c : Collection) × (Collection.new s' ≡ some c))
      → Carries hash
          (or_not_found db s λ s'.
            bind_option
              (Database.create_collection db name s')
              λ db'. some (db', Response.success ∷ []))
          (act_create w name s)
  unfolding Database.create_collection Database.update_collection
  create-Carries db w name none refines ok = (db, refl, refines)
  create-Carries db w name (some s) refines ok =
      let (c, e) = ok s refl in
      (
        Database.update_collection db name c,
        rw e,
        Refines-table hash db w name c _ refines (Keeps-new hash s c e),
      )

  get_schema-Carries :
      (db : Database) (w : Store) (s : Option Schema)
      → Refines hash db w
      → Carries hash
          (or_not_found db s λ s'. some (db, Response.schema s' ∷ []))
          (act_get_schema w s)
  get_schema-Carries db w none refines = (db, refl, refines)
  get_schema-Carries db w (some s) refines = (db, refl, refines)

  get_collection_schema-Carries :
      (db : Database) (w : Store) (c : Option Collection) (t : Option Table)
      → Refines hash db w
      → Relates hash c t
      → Carries hash
          (or_not_found db c λ c'. some (db, Response.schema c'.schema ∷ []))
          (act_get_collection_schema w t)
  get_collection_schema-Carries db w none none refines keeps = (db, refl, refines)
  get_collection_schema-Carries db w none (some t) refines keeps = absurd keeps
  get_collection_schema-Carries db w (some c) none refines keeps = absurd keeps
  get_collection_schema-Carries db w (some c) (some t) refines keeps =
      (db, rw keeps.same_schema, refines)

  -- Where the database is as the store says, a command that is allowed succeeds, with the responses
  -- that the store gives, and the database is then as the store says.
  pub execute-Carries :
      (db : Database) (w : Store) (cmd : Command)
      → Refines hash db w
      → Allows hash w cmd
      → Carries hash (execute hash db cmd) (act w cmd)
  unfolding execute act
  execute-Carries db w Command.no_command refines ok = (db, refl, refines)
  execute-Carries db w (Command.register_schema name s) refines ok =
      (Database.register_schema db name s, refl, Refines-schema hash db w name s refines)
  execute-Carries db w (Command.create_collection name schema_name) refines ok =
      rw (refines.schemas schema_name) (create-Carries db w name (w.schemas schema_name) refines ok)
  execute-Carries db w (Command.get_schema name) refines ok =
      rw (refines.schemas name) (get_schema-Carries db w (w.schemas name) refines)
  execute-Carries db w (Command.get_collection_schema name) refines ok =
      get_collection_schema-Carries db w (Database.collection db name) (w.tables name) refines
        (refines.tables name)
  execute-Carries db w (Command.get name key) refines ok =
      get-Carries db w key (Database.collection db name) (w.tables name) refines
        (refines.tables name) ok
  execute-Carries db w (Command.put name value) refines ok =
      put-Carries db w name value (Database.collection db name) (w.tables name) refines
        (refines.tables name) ok
  execute-Carries db w (Command.delete name key) refines ok =
      delete-Carries db w name key (Database.collection db name) (w.tables name) refines
        (refines.tables name) ok
