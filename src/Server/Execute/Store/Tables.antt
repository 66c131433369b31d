-- ===== src/Server/Execute/Store/Tables.antt =====
-- When a database is as the store says.
use boutique.Common.{
  ◌≡◌, ◌≢◌, ◌⊎◌, refl, sym, ap, subst, ◌∙◌, inl, inr, ℕ, false, Option, none, some, Bytes,
  Bool-cases, bytes_eq, if◌then◌else◌,
}
use boutique.Db.Schema.{Schema}
use boutique.Db.Collection
use boutique.Db.Collection.{KeyKind, Collection, tombstone_key_hash, hash_key, key_buffer}
use boutique.Db.Collection.Index.{AreUnremoved}
use boutique.Db.Collection.Puts.{Fits, new_lem}
use boutique.Db.Collection.Reached.{Reached, made}
use boutique.Db.Database
use boutique.Db.Database.{Database, lookup-insert_or_assign}
use boutique.Server.Execute.Store.{Table, Store, no_store, with_entry, with_table}

-- A key of the schema's kind, whose hash is not that of a removed bucket.
pub record HasHash (hash : KeyKind → Bytes → ℕ) (s : Schema) (key : Bytes) : Type 0 where
  pub empty : Collection
  pub is_new : Collection.new s ≡ some empty
  pub key_hash : ℕ
  pub hashed : hash_key hash empty.key_kind key ≡ some key_hash
  pub unremoved : key_hash ≢ tombstone_key_hash

-- A document of the schema's size, whose key has a hash that is not reserved and is not in the table,
-- or there was no delete.
pub record HasRoom (hash : KeyKind → Bytes → ℕ) (t : Table) (value : Bytes) : Type 0 where
  pub empty : Collection
  pub is_new : Collection.new t.schema ≡ some empty
  pub fits : Fits hash empty value
  pub free : (t.docs fits.key ≡ none) ⊎ (t.removed ≡ false)

-- The collection is as the table says.
pub record Keeps (hash : KeyKind → Bytes → ℕ) (c : Collection) (t : Table) : Type 0 where
  pub reached : Reached hash c t.docs
  pub same_schema : c.schema ≡ t.schema
  pub empty : Collection
  pub is_new : Collection.new t.schema ≡ some empty
  pub kind : c.key_kind ≡ empty.key_kind
  pub offset : c.key_offset ≡ empty.key_offset
  pub size : c.storage.doc_size ≡ empty.storage.doc_size
  pub unremoved : t.removed ≡ false → AreUnremoved c.buckets

abbrev pub Relates : (KeyKind → Bytes → ℕ) → Option Collection → Option Table → Type 0
Relates hash none none = Unit
Relates hash (some c) (some t) = Keeps hash c t
Relates hash _ _ = ⊥

-- The database is as the store says.
pub record Refines (hash : KeyKind → Bytes → ℕ) (db : Database) (w : Store) : Type 0 where
  pub schemas : (q : Bytes) → Database.schema db q ≡ w.schemas q
  pub tables : (q : Bytes) → Relates hash (Database.collection db q) (w.tables q)

module _ (hash : KeyKind → Bytes → ℕ) where
  pub Keeps-new :
      (s : Schema) (c : Collection)
      → Collection.new s ≡ some c
      → Keeps hash c (record { schema = s; removed = false; docs = λ q. none })
  Keeps-new s c e =
      let (no_buckets, none_there, same) = new_lem s c e in
      record {
        reached = made s c e;
        same_schema = same;
        empty = c;
        is_new = e;
        kind = refl;
        offset = refl;
        size = refl;
        unremoved = λ r. rw no_buckets tt;
      }

  -- the key's hash, in the collection
  pub Keeps-hashed :
      (c : Collection) (t : Table) (key : Bytes)
      → Keeps hash c t
      → (k : HasHash hash t.schema key) → hash_key hash c.key_kind key ≡ some k.key_hash
  Keeps-hashed c t key keeps k =
      let both = sym keeps.is_new ∙ k.is_new in
      let same : keeps.empty ≡ k.empty = cc in rw (keeps.kind, same) k.hashed

  -- the document fits, in the collection
  pub Keeps-Fits :
      (c : Collection) (t : Table) (value : Bytes)
      → Keeps hash c t
      → (r : HasRoom hash t value) → (f : Fits hash c value) × (f.key ≡ r.fits.key)
  Keeps-Fits c t value keeps r =
      let both = sym keeps.is_new ∙ r.is_new in
      let same : keeps.empty ≡ r.empty = cc in
      let f = r.fits in
      (
        record {
          whole = f.whole ∙ sym (rw same at keeps.size);
          key = f.key;
          with_key = rw (keeps.kind, keeps.offset, same) f.with_key;
          key_hash = f.key_hash;
          hashed = rw (keeps.kind, same) f.hashed;
          nonzero = f.nonzero;
          unremoved = f.unremoved;
        },
        refl,
      )

  pub Refines-new : Refines hash Database.new no_store
  unfolding Database.new Database.schema Database.collection
  Refines-new = record { schemas = λ q. refl; tables = λ q. tt }

  pub Refines-schema :
      (db : Database) (w : Store) (name : Bytes) (s : Schema)
      → Refines hash db w
      → Refines hash
          (Database.register_schema db name s)
          (record w { schemas = with_entry w.schemas name s })
  unfolding Database.register_schema Database.schema Database.collection
  Refines-schema db w name s refines = record {
    schemas = λ q.
        lookup-insert_or_assign name q s db.schemas
        ∙ ap (λ x. if bytes_eq name q then some s else x) (refines.schemas q);
    tables = refines.tables;
  }

  pub Refines-table :
      (db : Database) (w : Store) (name : Bytes) (c : Collection) (t : Table)
      → Refines hash db w
      → Keeps hash c t
      → Refines hash (Database.update_collection db name c) (with_table w name t)
  unfolding Database.update_collection Database.schema Database.collection
  Refines-table db w name c t refines keeps = record {
    schemas = refines.schemas;
    tables = λ q.
        subst (λ x. Relates hash x (with_entry w.tables name t q))
          (sym (lookup-insert_or_assign name q c db.colls))
          (elim (Bool-cases (bytes_eq name q)) [
            | inl same ↦ rw same keeps
            | inr other ↦ rw other (refines.tables q)
          ]);
  }
