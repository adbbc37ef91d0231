-- ===== src/Pipeline/Grows.antt =====
-- Storing reports only ever adds reports: whatever a call that stores reports does, also one that
-- raises in the middle, every row that was there stays as it was.
use dmarc_service.Base.{
  ℕ, ◌≡◌, sym, ◌∙◌, ap, true, false, List, [], ◌∷◌, ◌++◌, any, Bool-cases, inl, inr, append-nil,
  append_assoc, Option, suc,
}
use dmarc_service.Base.Text.{Bytes}
use dmarc_service.Base.Exec.{ok}
use dmarc_service.Schema.{AggregateReport, TlsReport, Source, Db}
use dmarc_service.Schema.Insert.{is_aggregate, is_tls}
use dmarc_service.Parsers.Types.{ParsedAggregateReport, ParsedTlsReport}
use dmarc_service.Parsers.Decoders.{Decoders}
use dmarc_service.Pipeline.Induction.{store_documents_keeps, store_reports_keeps}
use dmarc_service.Pipeline.Store.{
  Owner, store_aggregate, store_tlsrpt, store_documents, store_reports, file_under, file_tls_under,
  stored_aggregate, stored_tls,
}

abbrev pub with_reports : Db → List AggregateReport → List TlsReport → ℕ → Db
with_reports db rs ts n = record db {
  aggregate_reports = db.aggregate_reports ++ rs;
  tls_reports = db.tls_reports ++ ts;
  next_id = n;
}

-- `db'` is `db` with reports added at the end.
pub record Grows (db db' : Db) : Type 0 where
  pub aggregates : List AggregateReport
  pub tls : List TlsReport
  pub next : ℕ
  pub grown : db' ≡ with_reports db aggregates tls next

pub Grows-refl : (db : Db) → Grows db db
Grows-refl db = record {
  aggregates = [];
  tls = [];
  next = db.next_id;
  grown = rw (append-nil, append-nil);
}

pub Grows-trans : {a b c : Db} → Grows a b → Grows b c → Grows a c
Grows-trans {a} g h = record {
  aggregates = g.aggregates ++ h.aggregates;
  tls = g.tls ++ h.tls;
  next = h.next;
  grown =
      h.grown
      ∙ ap (λ d. with_reports d h.aggregates h.tls h.next) g.grown
      ∙ rw (append_assoc, append_assoc);
}

-- `db'` has the reports of `db`, and perhaps more; the other tables may be any.
pub record Adds (db db' : Db) : Type 0 where
  pub aggregates : List AggregateReport
  pub tls : List TlsReport
  pub more_aggregates : db'.aggregate_reports ≡ db.aggregate_reports ++ aggregates
  pub more_tls : db'.tls_reports ≡ db.tls_reports ++ tls

pub Adds-refl : (db : Db) → Adds db db
Adds-refl db = record {
  aggregates = [];
  tls = [];
  more_aggregates = sym (append-nil db.aggregate_reports);
  more_tls = sym (append-nil db.tls_reports);
}

pub Grows-Adds : {a b : Db} → Grows a b → Adds a b
Grows-Adds g = record {
  aggregates = g.aggregates;
  tls = g.tls;
  more_aggregates = ap (λ (d : Db). d.aggregate_reports) g.grown;
  more_tls = ap (λ (d : Db). d.tls_reports) g.grown;
}

pub Adds-trans : {a b c : Db} → Adds a b → Adds b c → Adds a c
Adds-trans g h = record {
  aggregates = g.aggregates ++ h.aggregates;
  tls = g.tls ++ h.tls;
  more_aggregates = rw (h.more_aggregates, g.more_aggregates, append_assoc);
  more_tls = rw (h.more_tls, g.more_tls, append_assoc);
}

-- the row that storing a report adds
abbrev pub aggregate_row : ParsedAggregateReport → ℕ → Owner → Db → AggregateReport
aggregate_row parsed raw_id o db =
    record (stored_aggregate parsed raw_id (file_under db parsed.policy_domain o)) {
      id = db.next_id;
    }

abbrev pub tls_row : ParsedTlsReport → Option ℕ → Owner → Source → Db → TlsReport
tls_row parsed raw_id o source db =
    record (stored_tls parsed raw_id (file_tls_under db parsed.policy_domains o) source) {
      id = db.next_id;
    }

module _ (parsed : ParsedAggregateReport) (raw_id : ℕ) (o : Owner) (db : Db) where
  pub store_aggregate_old :
      any (is_aggregate parsed.org_name parsed.report_id parsed.policy_domain) db.aggregate_reports
        ≡ true
      → store_aggregate parsed raw_id o db ≡ (ok false, db)
  unfolding store_aggregate
  store_aggregate_old old = rw old

  pub store_aggregate_new :
      any (is_aggregate parsed.org_name parsed.report_id parsed.policy_domain) db.aggregate_reports
        ≡ false
      → store_aggregate parsed raw_id o db
        ≡ (ok true, with_reports db (aggregate_row parsed raw_id o db ∷ []) [] (suc db.next_id))
  unfolding store_aggregate
  store_aggregate_new new = rw (new, new) (rw append-nil)

  pub store_aggregate-Grows : Grows db (store_aggregate parsed raw_id o db).1
  store_aggregate-Grows =
      elim (Bool-cases (
        any (is_aggregate parsed.org_name parsed.report_id parsed.policy_domain)
          db.aggregate_reports)) [
            | inl old ↦ rw (store_aggregate_old old) (Grows-refl db)
            | inr new ↦ record {
              aggregates = aggregate_row parsed raw_id o db ∷ [];
              tls = [];
              next = suc db.next_id;
              grown = rw (store_aggregate_new new);
            }
          ]

module _ (parsed : ParsedTlsReport) (raw_id : Option ℕ) (o : Owner) (source : Source)
    (db : Db) where
  pub store_tlsrpt_old :
      any (is_tls parsed.organization_name parsed.report_id) db.tls_reports ≡ true
      → store_tlsrpt parsed raw_id o source db ≡ (ok false, db)
  unfolding store_tlsrpt
  store_tlsrpt_old old = rw old

  pub store_tlsrpt_new :
      any (is_tls parsed.organization_name parsed.report_id) db.tls_reports ≡ false
      → store_tlsrpt parsed raw_id o source db
        ≡ (ok true, with_reports db [] (tls_row parsed raw_id o source db ∷ []) (suc db.next_id))
  unfolding store_tlsrpt
  store_tlsrpt_new new = rw (new, new) (rw append-nil)

  pub store_tlsrpt-Grows : Grows db (store_tlsrpt parsed raw_id o source db).1
  store_tlsrpt-Grows =
      elim (Bool-cases (any (is_tls parsed.organization_name parsed.report_id) db.tls_reports)) [
        | inl old ↦ rw (store_tlsrpt_old old) (Grows-refl db)
        | inr new ↦ record {
          aggregates = [];
          tls = tls_row parsed raw_id o source db ∷ [];
          next = suc db.next_id;
          grown = rw (store_tlsrpt_new new);
        }
      ]

-- The same of the documents of a message, and of a whole message.
pub store_documents-Grows :
    (dec : Decoders) (raw_id : ℕ) (o : Owner) (documents : List Bytes) (db : Db)
    → Grows db (store_documents dec raw_id o documents db).1
store_documents-Grows dec raw_id o documents db =
    store_documents_keeps dec (Grows db) o
      (λ parsed id d g. Grows-trans g (store_aggregate-Grows parsed id o d))
      (λ parsed id source d g. Grows-trans g (store_tlsrpt-Grows parsed id o source d)) raw_id
      documents db (Grows-refl db)

pub store_reports-Grows :
    (dec : Decoders) (raw_id : ℕ) (o : Owner) (content : Bytes) (db : Db)
    → Grows db (store_reports dec raw_id o content db).1
store_reports-Grows dec raw_id o content db =
    store_reports_keeps dec (Grows db) o
      (λ parsed id d g. Grows-trans g (store_aggregate-Grows parsed id o d))
      (λ parsed id source d g. Grows-trans g (store_tlsrpt-Grows parsed id o source d)) raw_id
      content db (Grows-refl db)
