-- ===== src/Pipeline/Batch.antt =====
-- What reprocessing stored messages does, over the whole batch.
use dmarc_service.Base.{
  ℕ, zero, suc, ◌+◌, ◌≡◌, refl, ◌∙◌, ◌⊎◌, true, false, Bool, List, [], ◌∷◌, Option-cases,
  Bool-cases, inl, inr, Option, none, some, length, arith, is_some, select, take, map, update,
}
use dmarc_service.Base.Text.{Text}
use dmarc_service.Base.Exec.{Result, ok, raised}
use dmarc_service.Schema.{RawMessage, Db}
use dmarc_service.Schema.Valid.{IsValid}
use dmarc_service.Parsers.Decoders.{Decoders}
use dmarc_service.Pipeline.Store.{Owner, Tally}
use dmarc_service.Pipeline.Flush.{are_taken, not_taken, flush-pure, taken_or_not}
use dmarc_service.Pipeline.Message.{
  Verdict, with_verdict, has_raw_id, set_verdict, active_for, retired_for, local_part_of,
}
use dmarc_service.Pipeline.Upload.{no_owner}
use dmarc_service.Pipeline.Reprocess.{
  ReprocessCounts, is_pending, known_owner, replay, settle, apply_verdict, reprocess_one,
  reprocess_all, examine_all, reprocess,
}
use dmarc_service.Pipeline.Grows.{Adds, Adds-refl}
use dmarc_service.Pipeline.Arrival.{
  owner_total, active-HasDomain, retired-HasDomain, set_verdict-IsValid,
}
use dmarc_service.Pipeline.Replayed.{Keeps, unjudged, replay-Keeps}

-- Looking for the owner of a message never fails.
known_owner_total :
    (db : Db) (local_part : Text) → IsValid db → (o : Owner) × (known_owner db local_part ≡ ok o)
unfolding known_owner
known_owner_total db local_part v = elim (Option-cases (active_for db local_part)) [
  | inr (a, e) ↦
      let (o, found) = owner_total db a (active-HasDomain db local_part v e) in
      (o, rw (known_owner, e) found)
  | inl n ↦ elim (Option-cases (retired_for db local_part)) [
    | inr (a, e) ↦
        let (o, found) = owner_total db a (retired-HasDomain db local_part v n e) in
        (o, rw (known_owner, n) (rw e found))
    | inl m ↦ (no_owner, rw (known_owner, n) (rw m refl))
  ]
]

map-update_verdict :
    (id : ℕ) (v : Verdict) (ms : List RawMessage)
    → map unjudged (update (has_raw_id id) (with_verdict v) ms) ≡ map unjudged ms
map-update_verdict id v [] = refl
map-update_verdict id v (m ∷ ms) = elim (Bool-cases (has_raw_id id m)) [
  | inl this ↦ rw this (rw (map-update_verdict id v ms))
  | inr other ↦ rw other (rw (map-update_verdict id v ms))
]

pub apply_verdict-Keeps :
    (db : Db) (id : ℕ) (v : Option Verdict) (now : Db)
    → Keeps db now
    → Keeps db (apply_verdict id v now)
unfolding set_verdict
apply_verdict-Keeps db id none now k = k
apply_verdict-Keeps db id (some v) now k = record {
  valid = set_verdict-IsValid id v now k.valid;
  adds = record {
    aggregates = k.adds.aggregates;
    tls = k.adds.tls;
    more_aggregates = k.adds.more_aggregates;
    more_tls = k.adds.more_tls;
  };
  messages = map-update_verdict id v now.raw_messages ∙ k.messages;
}

pub Keeps-refl : (db : Db) → IsValid db → Keeps db db
Keeps-refl db v = record { valid = v; adds = Adds-refl db; messages = refl }

-- one more message was examined, and has one of the three outcomes
abbrev pub outcomes : ReprocessCounts → ℕ
outcomes n = n.recovered + n.duplicate + n.still_failing

settle_counts :
    (has_address : Bool) (r : Result Tally) (n : ReprocessCounts)
    → let n' = (settle has_address r n).1 in
      (n'.examined ≡ n.examined) × (outcomes n' ≡ suc (outcomes n))
unfolding settle
settle_counts b (raised x) n = (refl, omega arith)
settle_counts b (ok (parsed, suc stored)) n = (refl, omega arith)
settle_counts b (ok (suc parsed, zero)) n = (refl, omega arith)
settle_counts b (ok (zero, zero)) n = (refl, omega arith)

module _ (dec : Decoders) (db : Db) where
  abbrev Batch : (Result ReprocessCounts × Db) → ℕ → ReprocessCounts → Type 0
  Batch run k n =
      (n' : ReprocessCounts) × (now' : Db) × (run ≡ (ok n', now'))
      × Keeps db now'
      × (n'.examined ≡ k + n.examined)
      × (outcomes n' ≡ k + outcomes n)

  reprocess_one_lem :
      (raw : RawMessage) (n : ReprocessCounts) (now : Db)
      → Keeps db now
      → Batch (reprocess_one dec raw n now) 1 n
  unfolding reprocess_one
  reprocess_one_lem raw n now k =
      let (o, known) = known_owner_total now (local_part_of raw.rcpt_to) k.valid in
      let outcome = (replay dec raw o now).0 in
      let has_address = is_some (active_for now (local_part_of raw.rcpt_to)) in
      let settled = settle has_address outcome (record n { examined = suc n.examined }) in
      let counted = settle_counts has_address outcome (record n { examined = suc n.examined }) in
      let kept = apply_verdict-Keeps db raw.id settled.0 _ (replay-Keeps db dec raw o now k) in
      (
        settled.1,
        apply_verdict raw.id settled.0 (replay dec raw o now).1,
        rw (reprocess_one, known) refl,
        kept,
        ground arith,
        ground arith,
      )

  reprocess_all_lem :
      (raws : List RawMessage) (n : ReprocessCounts) (now : Db)
      → Keeps db now
      → Batch (reprocess_all dec raws n now) (length raws) n
  unfolding reprocess_all
  reprocess_all_lem [] n now k = (n, now, refl, k, ground arith, ground arith)
  reprocess_all_lem (raw ∷ raws) n now k =
      let (n1, now1, first, k1, e1, o1) = reprocess_one_lem raw n now k in
      let (n2, now2, later, k2, e2, o2) = reprocess_all_lem raws n1 now1 k1 in
      (n2, now2, rw (reprocess_all, first) later, k2, ground arith, ground arith)

pub reprocess_lem :
    (dec : Decoders) (limit : ℕ) (db : Db)
    → IsValid db
    → let (result, db') = reprocess dec limit db in
      (n : ReprocessCounts) × (((result ≡ ok n) × (are_taken dec db db' ≡ true))
        ⊎ ((result ≡ raised not_taken) × (are_taken dec db db' ≡ false)))
      × (n.examined
          ≡ length
              (take limit (select (λ (raw : RawMessage). is_pending raw.status) db.raw_messages)))
      × (n.recovered + n.duplicate + n.still_failing ≡ n.examined)
      × (map unjudged db'.raw_messages ≡ map unjudged db.raw_messages)
      × Adds db db'
      × IsValid db'
unfolding reprocess examine_all
reprocess_lem dec limit db v =
    let raws = take limit (select (λ (raw : RawMessage). is_pending raw.status) db.raw_messages) in
    let (n, db', run, k, e, o) =
      reprocess_all_lem dec db raws
        (record { examined = 0; recovered = 0; duplicate = 0; still_failing = 0 }) db
        (Keeps-refl db v) in
    rw run (
      rw (flush-pure dec db db' n) (
        n,
        taken_or_not (are_taken dec db db') n,
        ground arith,
        ground arith,
        k.messages,
        k.adds,
        k.valid,
      ))
