-- ===== src/Jobs/Worker/Insert.antt =====
-- The steps of the two runs that write no row, and the one that adds a row.
use clean_node_server.Common.{
  [], ◌∷◌, none, some, true, false, Bool-cases, subst, ℕ, suc, ◌<◌, arith, String, ◌==◌, string_eq,
  if◌then◌else◌, inl, inr, ◌∙◌, subst, ◌<◌, string_eq, ◌==◌, suc, inr, if◌then◌else◌, ◌∙◌, inl,
  some, arith, Bool-cases, none, false, true, ℕ, String, ◌≡◌, refl, sym, ap,
}
use clean_node_server.Common.Assoc
use clean_node_server.Jobs.{
  new_row, on_rows, is_live, register_job, pending, Jobs, JobConfig, configured, Rows, JobRecord,
  reconfigure, db_insert,
}
use clean_node_server.Jobs.Worker.Mirror.{
  on_rows-plain, on_rows-cached, drawn-set, known_record-set, known_of, known_row, IsMirror,
  known_record,
}
use clean_node_server.Jobs.Worker.Live.{
  filter_live-insert, filter_live-set_live, has-reconfigure, reconfigure-IsMap,
  filter_live-reconfigure, Records,
}

known_record-reconfigure :
    (j name : String) (cfg : JobConfig) (m : Records)
    → known_record j (reconfigure name cfg m) ≡ known_record j m
unfolding reconfigure configured
known_record-reconfigure j name cfg [] = refl
known_record-reconfigure j name cfg ((i, r) ∷ m) =
    ground (arith, known_record-reconfigure j name cfg m)

-- Two ids that have been drawn are the values of one function, which is injective.
abbrev pub IsFresh : (ℕ → String) → Type 0
IsFresh random_uuid = (i j : ℕ) → random_uuid i ≡ random_uuid j → i ≡ j

has-false : (id : String) (m : Records) → ¬ (Assoc.has id m ≡ true) → Assoc.has id m ≡ false
has-false id m h = elim (Bool-cases (Assoc.has id m)) [ inl e ↦ absurd (h e) | inr e ↦ e ]

pub db_insert-known :
    (id j : String) (r : JobRecord) (rows : Rows)
    → Assoc.get id rows ≡ none
    → r.status ≡ pending
    → r.result ≡ none
    → r.error ≡ none
    → known_row j (db_insert id r rows) ≡ (if id == j then some (known_of r) else known_row j rows)
unfolding db_insert new_row
db_insert-known id j r rows e h k l =
    ground (arith, e, Assoc.has-eq-get id rows, Assoc.get-set id j (new_row r) rows, h, k, l)

abbrev pub extended : String → JobRecord → Jobs → Jobs
extended id r s = record s { records = Assoc.set id r s.records; next_uuid = suc s.next_uuid }

module _ {random_uuid : ℕ → String} {rows : Rows} {cached plain : Jobs}
    (v : IsMirror random_uuid rows cached plain) where
  pub register_job-IsMirror :
      (name : String) (cfg : JobConfig)
      → IsMirror random_uuid rows (register_job name cfg cached) (register_job name cfg plain)
  unfolding register_job
  register_job-IsMirror name cfg = record {
    configs = ap (Assoc.set name cfg) v.configs;
    uuids = v.uuids;
    started = v.started;
    live = ap (reconfigure name cfg) v.live ∙ sym (filter_live-reconfigure name cfg plain.records);
    keys = reconfigure-IsMap name cfg plain.records v.keys;
    writable = v.writable;
    opened = v.opened;
    no_db = v.no_db;
    told = λ j. v.told j ∙ sym (known_record-reconfigure j name cfg plain.records);
    drawn = λ j h. v.drawn j (sym (has-reconfigure j name cfg plain.records) ∙ h);
  }

  -- A change in memory of what is not told of a job.
  pub revise-IsMirror :
      (id : String) (r old : JobRecord)
      → Assoc.get id plain.records ≡ some old
      → is_live old.status ≡ true
      → known_of r ≡ known_of old
      → IsMirror random_uuid rows
          (record cached { records = Assoc.set id r cached.records })
          (record plain { records = Assoc.set id r plain.records })
  revise-IsMirror id r old e h k = record {
    configs = v.configs;
    uuids = v.uuids;
    started = v.started;
    live =
        ap (Assoc.set id r) v.live
        ∙ sym (filter_live-set_live id r old plain.records e h (ap (λ k. is_live k.status) k ∙ h));
    keys = Assoc.set-IsMap id r plain.records v.keys;
    writable = v.writable;
    opened = v.opened;
    no_db = v.no_db;
    told = λ j. v.told j ∙ unchanged j ∙ sym (known_record-set id j r plain.records);
    drawn = drawn-set v id r old e;
  }
    where
      unchanged :
          (j : String)
          → known_record j plain.records
            ≡ (if id == j then some (known_of r) else known_record j plain.records)
      unchanged j = ground (arith, e, k, string_eq.beq_iff id j)

  module _ (fresh : IsFresh random_uuid) where
    pub missing : Assoc.has (random_uuid plain.next_uuid) plain.records ≡ false
    missing = has-false (random_uuid plain.next_uuid) plain.records (λ h.
        let (k, less, same) = v.drawn (random_uuid plain.next_uuid) h in
        omega (arith, less, fresh plain.next_uuid k same))

    pub enqueued-IsMirror :
        (r : JobRecord)
        → r.status ≡ pending
        → r.result ≡ none
        → r.error ≡ none
        → IsMirror random_uuid
            (db_insert (random_uuid plain.next_uuid) r rows)
            (on_rows
              (db_insert (random_uuid plain.next_uuid) r)
              (extended (random_uuid plain.next_uuid) r cached))
            (on_rows
              (db_insert (random_uuid plain.next_uuid) r)
              (extended (random_uuid plain.next_uuid) r plain))
    enqueued-IsMirror r e f g =
        subst
          (λ s.
            IsMirror random_uuid (db_insert id r rows) s
              (on_rows (db_insert id r) (extended id r plain)))
          (sym (on_rows-cached v (db_insert id r) (extended id r cached) refl refl))
          (subst
            (IsMirror random_uuid (db_insert id r rows)
              (record (extended id r cached) { db = some (db_insert id r rows) }))
            (sym (on_rows-plain v (db_insert id r) (extended id r plain) refl))
            (record {
              configs = v.configs;
              uuids = ap suc v.uuids;
              started = v.started;
              live =
                  ap (Assoc.set id r) v.live
                  ∙ sym (filter_live-insert id r plain.records (missing) (ap is_live e));
              keys = Assoc.set-IsMap id r plain.records v.keys;
              writable = v.writable;
              opened = refl;
              no_db = v.no_db;
              told = told;
              drawn = drawn;
            }))
      where
        id : String
        id = random_uuid plain.next_uuid

        no_row : Assoc.get id rows ≡ none
        no_row = ground (arith, v.told id, Assoc.get-eq-none id plain.records missing)

        told :
            (j : String)
            → known_row j (db_insert id r rows) ≡ known_record j (Assoc.set id r plain.records)
        told j =
            db_insert-known id j r rows no_row e f g
            ∙ ap (λ k. if id == j then some (known_of r) else k) (v.told j)
            ∙ sym (known_record-set id j r plain.records)

        drawn :
            (j : String)
            → Assoc.has j (Assoc.set id r plain.records) ≡ true
            → (k : ℕ) × (k < suc plain.next_uuid) × (j ≡ random_uuid k)
        drawn j h = elim (Bool-cases (id == j)) [
          | inl same ↦ (plain.next_uuid, omega arith, sym ((string_eq.beq_iff id j).0 same))
          | inr other ↦
              let (k, less, place) =
                v.drawn j (ground (arith, h, other, Assoc.has-set id j r plain.records)) in
              (k, omega (arith, less), place)
        ]
