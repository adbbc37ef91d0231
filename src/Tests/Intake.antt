-- ===== src/Tests/Intake.antt =====
-- The SMTP handler, the expansion of SPF records, and the naming of addresses.
use dmarc_service.Base.{
  ℕ, suc, ◌+◌, ◌-◌, ◌≤◌, ◌≡◌, refl, false, List, [], ◌∷◌, some, none, if◌then◌else◌,
}
use dmarc_service.Base.Int.{pos}
use dmarc_service.Base.Text.{Text, Bytes, codes, text_eq}
use dmarc_service.Base.Exec.{Result, raised, value_error}
use dmarc_service.Smtp.{Envelope}
use dmarc_service.Spf.Expand.{Dns, max_dns_terms, walk, start, expand_with_cost}
use dmarc_service.Spf.Bounded.{expand_with_cost_lem}
use dmarc_service.Enrich.{Contact, organisation}
use dmarc_service.Tests.Samples.{xml_report}

abbrev refuse : Text → Text → Bytes → Text → Text → Text → Result (Unit {0})
refuse url token content source_ip mail_from rcpt_to = raised (value_error (codes "down"))

abbrev envelope : Envelope
envelope = record {
  mail_from = none;
  rcpt_tos = codes "aa@d.net" ∷ codes "x@d.net" ∷ [];
  content = some xml_report;
}

-- two records that include each other
abbrev dns : Dns
dns = record {
  txt = λ name.
      if text_eq name (codes "a")
      then codes "v=spf1 include:b ip4:1" ∷ []
      else codes "v=spf1 include:a a" ∷ [];
  addresses = λ name. codes "7" ∷ [];
  exchanges = λ name. [];
}

expand_with_cost_lem_example :
    let w = walk dns some (suc max_dns_terms + 2) (codes "a") (start dns some) in
    (k : ℕ) × (w.budget ≡ pos k)
    × (k ≤ max_dns_terms)
    × (expand_with_cost dns some (codes "a") ≡ (w.networks, max_dns_terms - k))
expand_with_cost_lem_example = expand_with_cost_lem dns some 2 (codes "a")

run_expand : expand_with_cost dns some (codes "a") ≡ (codes "7" ∷ codes "1" ∷ [], 3)
unfolding expand_with_cost text_eq
run_expand = refl

abbrev contacts : List Contact
contacts =
    record { name = codes "Abuse-C Role"; is_individual = false; roles = codes "abuse" ∷ [] }
    ∷ record { name = codes "Acme"; is_individual = false; roles = codes "registrant" ∷ [] }
    ∷ []

organisation_named : organisation contacts ≡ codes "Acme"
unfolding organisation text_eq
organisation_named = refl
