-- ===== src/Jobs/Worker/Mirror.antt =====
-- A run with a table that takes every write, beside one without a table, step by step.
use clean_node_server.Common.{
  ℕ, ◌<◌, ◌≡◌, refl, sym, ap, subst, ◌∙◌, String, true, false, inl, inr, Option, none, some, arith,
  nat_eq, string_eq, ◌==◌, if◌then◌else◌, Option-cases,
}
use clean_node_server.Common.Assoc
use clean_node_server.Jobs.{
  is_live, JobRecord, Known, Jobs, Rows, DbRowJob, known, save, on_rows, db_update, updated_row,
  persist_and_evict,
}
use clean_node_server.Jobs.Worker.Live.{
  Records, filter_live, keep_live, get-filter_live, filter_live-set_live, filter_live-set_over,
}

abbrev pub known_of : JobRecord → Known
known_of r = record { status = r.status; result = r.result; error = r.error }

abbrev pub known_record : String → Records → Option Known
known_record id m = elim (Assoc.get id m) [ none ↦ none | some r ↦ some (known_of r) ]

abbrev pub known_row : String → Rows → Option Known
known_row id rows = elim (Assoc.get id rows) [
  | none ↦ none
  | some row ↦
      some (record { status = row.status; result = row.result_json; error = row.error_message })
]

-- The two runs: the cache is the live part of the records of the plain run, and the table says of each
-- job what the plain run does. Ids are values of randomUUID that have been drawn.
pub record IsMirror (random_uuid : ℕ → String) (rows : Rows) (cached plain : Jobs) : Type 0 where
  pub configs : cached.configs ≡ plain.configs
  pub uuids : cached.next_uuid ≡ plain.next_uuid
  pub started : cached.worker_started ≡ plain.worker_started
  pub live : cached.records ≡ filter_live plain.records
  pub keys : Assoc.IsMap plain.records
  pub writable : cached.writable ≡ true
  pub opened : cached.db ≡ some rows
  pub no_db : plain.db ≡ none
  pub told : (id : String) → known_row id rows ≡ known_record id plain.records
  pub drawn :
      (id : String)
      → Assoc.has id plain.records ≡ true
      → (k : ℕ) × (k < plain.next_uuid) × (id ≡ random_uuid k)

known_row-db_update :
    (id j : String) (r : JobRecord) (rows : Rows) (k : Known)
    → known_row id rows ≡ some k
    → known_row j (db_update id r rows) ≡ (if id == j then some (known_of r) else known_row j rows)
unfolding db_update updated_row
known_row-db_update id j r rows k e = elim (Option-cases (Assoc.get id rows)) [
  | inl f ↦ absurd (ground (arith, e, f))
  | inr (row, f) ↦
      ap (known_row j) (db_update-some f)
      ∙ ground (arith, Assoc.get-set id j (updated_row r row) rows)
]
  where
    db_update-some :
        {row : DbRowJob}
        → Assoc.get id rows ≡ some row
        → db_update id r rows ≡ Assoc.set id (updated_row r row) rows
    db_update-some f = ground (arith, f)

pub known_record-set :
    (id j : String) (r : JobRecord) (m : Records)
    → known_record j (Assoc.set id r m) ≡ (if id == j then some (known_of r) else known_record j m)
known_record-set id j r m = ground (arith, Assoc.get-set id j r m)

module _ {random_uuid : ℕ → String} {rows : Rows} {cached plain : Jobs}
    (v : IsMirror random_uuid rows cached plain) where
  pub get-cached :
      (id : String) → Assoc.get id cached.records ≡ keep_live (Assoc.get id plain.records)
  get-cached id = ap (Assoc.get id) v.live ∙ get-filter_live id plain.records v.keys

  -- What can be learned of a job is the same.
  pub known_same : (id : String) → known id cached ≡ known id plain
  unfolding known
  known_same id = elim (Option-cases (Assoc.get id plain.records)) [
    | inl e ↦ ground (arith, e, get-cached id, v.opened, v.no_db, v.told id)
    | inr (r, e) ↦ ground (arith, e, get-cached id, v.opened, v.no_db, v.told id)
  ]

  pub on_rows-cached :
      (write : Rows → Rows) (s : Jobs)
      → s.db ≡ cached.db
      → s.writable ≡ cached.writable
      → on_rows write s ≡ record s { db = some (write rows) }
  unfolding on_rows
  on_rows-cached write s e f = ground (arith, e, f, v.opened, v.writable)

  pub on_rows-plain : (write : Rows → Rows) (s : Jobs) → s.db ≡ plain.db → on_rows write s ≡ s
  unfolding on_rows
  on_rows-plain write s e = ground (arith, e, v.no_db)

  save-cached :
      (id : String) (r : JobRecord)
      → save id r cached
        ≡ record cached { records = Assoc.set id r cached.records; db = some (db_update id r rows) }
  unfolding save
  save-cached id r =
      on_rows-cached (db_update id r) (record cached { records = Assoc.set id r cached.records })
        refl refl

  save-plain :
      (id : String) (r : JobRecord)
      → save id r plain ≡ record plain { records = Assoc.set id r plain.records }
  unfolding save
  save-plain id r =
      on_rows-plain (db_update id r) (record plain { records = Assoc.set id r plain.records }) refl

  evicted :
      (id : String) (r : JobRecord)
      → persist_and_evict id r cached ≡ record cached {
        records = Assoc.delete id (Assoc.set id r cached.records);
        db = some (db_update id r rows);
      }
  unfolding persist_and_evict
  evicted id r = ground (arith, v.opened, save-cached id r)

  kept :
      (id : String) (r : JobRecord)
      → persist_and_evict id r plain ≡ record plain { records = Assoc.set id r plain.records }
  unfolding persist_and_evict
  kept id r = ground (arith, v.no_db, save-plain id r)

  module _ (id : String) (r old : JobRecord) (e : Assoc.get id plain.records ≡ some old) where
    pub drawn-set :
        (j : String)
        → Assoc.has j (Assoc.set id r plain.records) ≡ true
        → (k : ℕ) × (k < plain.next_uuid) × (j ≡ random_uuid k)
    drawn-set j h = v.drawn j (
        ground (
          arith,
          h,
          e,
          Assoc.has-set id j r plain.records,
          Assoc.has-eq-get id plain.records,
          string_eq.beq_iff id j,
        ))

    told-set :
        (j : String)
        → known_row j (db_update id r rows) ≡ known_record j (Assoc.set id r plain.records)
    told-set j =
        known_row-db_update id j r rows (known_of old) (v.told id ∙ ground (arith, e))
        ∙ ap (λ k. if id == j then some (known_of r) else k) (v.told j)
        ∙ sym (known_record-set id j r plain.records)

    -- A record that stays live is written in both.
    pub save-IsMirror :
        is_live old.status ≡ true
        → is_live r.status ≡ true
        → IsMirror random_uuid (db_update id r rows) (save id r cached) (save id r plain)
    save-IsMirror h k =
        subst (λ s. IsMirror random_uuid (db_update id r rows) s (save id r plain))
          (sym (save-cached id r))
          (subst (IsMirror random_uuid (db_update id r rows) _) (sym (save-plain id r)) (record {
            configs = v.configs;
            uuids = v.uuids;
            started = v.started;
            live =
                ap (Assoc.set id r) v.live
                ∙ sym (filter_live-set_live id r old plain.records e h k);
            keys = Assoc.set-IsMap id r plain.records v.keys;
            writable = v.writable;
            opened = refl;
            no_db = v.no_db;
            told = told-set;
            drawn = drawn-set;
          }))

    -- A record that ends leaves the cache of one run and stays in the other.
    pub persist_and_evict-IsMirror :
        is_live old.status ≡ true
        → is_live r.status ≡ false
        → IsMirror random_uuid
            (db_update id r rows)
            (persist_and_evict id r cached)
            (persist_and_evict id r plain)
    persist_and_evict-IsMirror h k =
        subst (λ s. IsMirror random_uuid (db_update id r rows) s (persist_and_evict id r plain))
          (sym (evicted id r))
          (subst (IsMirror random_uuid (db_update id r rows) _) (sym (kept id r)) (record {
            configs = v.configs;
            uuids = v.uuids;
            started = v.started;
            live =
                ap (λ l. Assoc.delete id (Assoc.set id r l)) v.live
                ∙ sym (filter_live-set_over id r old plain.records v.keys e h k);
            keys = Assoc.set-IsMap id r plain.records v.keys;
            writable = v.writable;
            opened = refl;
            no_db = v.no_db;
            told = told-set;
            drawn = drawn-set;
          }))
