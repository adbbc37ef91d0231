-- ===== src/Pipeline/Accepted.antt =====
-- Which TLS reports the HTTPS endpoint accepts.
use dmarc_service.Base.{◌≡◌, List, ◌∷◌, none, some, find, ◌++◌}
use dmarc_service.Base.Rows.{All}
use dmarc_service.Base.Text.{Text}
use dmarc_service.Schema.{Domain, TlsReport, https, Db}
use dmarc_service.Schema.Insert.{has_name}
use dmarc_service.Parsers.Types.{ParsedTlsReport}
use dmarc_service.Parsers.Decoders.{Decoders}
use dmarc_service.Pipeline.Store.{Owner}
use dmarc_service.Pipeline.Grows.{tls_row}

abbrev owner_by_domain : Domain → Owner
owner_by_domain d = record { tenant_id = some d.tenant_id; domain_id = some d.id }

-- The row that an accepted report adds: it names no message, and says that it came by HTTPS.
-- none of the names is that of a registered domain
abbrev pub AreUnregistered : Db → List Text → Type 0
AreUnregistered db = All (λ name. find (has_name name) db.domains ≡ none)

-- The domain is the one of the first of the names that is registered.
abbrev pub IsFirstRegistered : Db → List Text → Domain → Type 0
IsFirstRegistered db names d =
    (before : List Text) × (name : Text) × (after : List Text) × (names ≡ before ++ name ∷ after)
    × AreUnregistered db before
    × (find (has_name name) db.domains ≡ some d)

abbrev pub https_row : ParsedTlsReport → Domain → Db → TlsReport
https_row p d db = tls_row p none (owner_by_domain d) https db
