-- ===== src/Pipeline/Http.antt =====
-- `process_tlsrpt_http` of ingest/pipeline.py.
use dmarc_service.Base.{Bool, List, [], ◌∷◌, none, some, find}
use dmarc_service.Base.Text.{Text, Bytes, codes}
use dmarc_service.Base.Exec.{Exec, value_error, raise, lift, gets, ◌>>=◌}
use dmarc_service.Schema.{Domain, https, Db}
use dmarc_service.Schema.Insert.{has_name}
use dmarc_service.Parsers.Decoders.{Decoders}
use dmarc_service.Parsers.Tlsrpt.{parse_tlsrpt_json}
use dmarc_service.Pipeline.Store.{store_tlsrpt}

-- the registered domains among the names, in order
unfoldable pub registered : Db → List Text → List Domain
registered db [] = []
registered db (name ∷ names) =
    let rest = registered db names in
    elim (find (has_name name) db.domains) [ none ↦ rest | some d ↦ d ∷ rest ]

module _ (dec : Decoders) where
  unfoldable pub process_tlsrpt_http : Bytes → Exec Db Bool
  unfolding registered store_tlsrpt
  process_tlsrpt_http document = do
    parsed ← lift (parse_tlsrpt_json dec document)
    known ← gets (λ db. registered db parsed.policy_domains)
    elim known [
      | [] ↦ raise (value_error (codes "report does not concern any registered domain"))
      | d ∷ _ ↦
          store_tlsrpt parsed none (record { tenant_id = some d.tenant_id; domain_id = some d.id })
            https
    ]
