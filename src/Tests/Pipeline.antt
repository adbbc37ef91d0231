-- ===== src/Tests/Pipeline.antt =====
-- Messages and uploads on the sample database.
use dmarc_service.Base.{◌≡◌, ◌≢◌, ◌+◌, refl, true, [], none, some, length}
use dmarc_service.Base.Text.{Text, codes, text_eq}
use dmarc_service.Base.Exec.{ok}
use dmarc_service.Schema.{RawMessage, Db, routed, duplicate}
use dmarc_service.Pipeline.Message.{active_for, local_part_of, process_message, route, Route}
use dmarc_service.Pipeline.Store.{store_reports, Owner}
use dmarc_service.Pipeline.Twice.{process_message_twice}
use dmarc_service.Pipeline.Again.{Holds-refl}
use dmarc_service.Pipeline.Filed.{AddsFor, process_message_filed}
use dmarc_service.Pipeline.Again.{store_reports_again}
use dmarc_service.Pipeline.Upload.{Stored, process_upload}
use dmarc_service.Pipeline.Uploaded.{process_upload_counted}
use dmarc_service.Pipeline.Http.{process_tlsrpt_http}
use dmarc_service.Parsers.Documents.{extract_report_payloads, classify}
use dmarc_service.Parsers.Aggregate.{parse_aggregate_xml}
use dmarc_service.Parsers.Tlsrpt.{parse_tlsrpt_json}
use dmarc_service.Parsers.Xml.{plain_tag}
use dmarc_service.Tests.Samples.{
  sample, sample-IsValid, decoders, xml_report, json_report, address_aa, example_com,
}

abbrev rcpt : Text
rcpt = codes "AA@d.net"

abbrev stored_first : RawMessage
stored_first = record {
  id = 6;
  source_ip = [];
  mail_from = codes "m";
  rcpt_to = rcpt;
  size = 10;
  content = xml_report;
  status = routed;
  error = [];
}

run_first : (process_message decoders xml_report [] (codes "m") rcpt sample).0 ≡ ok stored_first
unfolding process_message text_eq extract_report_payloads classify parse_aggregate_xml plain_tag
run_first = refl

abbrev after_first : Db
after_first = (process_message decoders xml_report [] (codes "m") rcpt sample).1

abbrev routed_to_example : Route
routed_to_example = record {
  owner = record { tenant_id = some 2; domain_id = some 3 };
  status = routed;
  error = codes "";
}

route_first : route after_first rcpt ≡ ok routed_to_example
unfolding process_message text_eq extract_report_payloads classify parse_aggregate_xml plain_tag
route_first = refl

process_message_twice_example :
    let (result, db') =
      process_message decoders xml_report (codes "ip") (codes "n") rcpt after_first in
    (again : RawMessage) × (result ≡ ok again)
    × (again.status ≡ duplicate)
    × (again.error ≡ codes "already stored")
    × (db'.aggregate_reports ≡ after_first.aggregate_reports)
    × (db'.tls_reports ≡ after_first.tls_reports)
process_message_twice_example =
    process_message_twice decoders xml_report [] (codes "m") rcpt sample stored_first (codes "ip")
      (codes "n") after_first routed_to_example sample-IsValid run_first refl
      (Holds-refl after_first) route_first refl

process_message_filed_example :
    AddsFor
      (record { tenant_id = some 2; domain_id = some 3 })
      sample
      (process_message decoders xml_report [] (codes "m") rcpt sample).1
unfolding active_for local_part_of text_eq
process_message_filed_example =
    process_message_filed decoders xml_report [] (codes "m") rcpt sample address_aa example_com refl
      refl

abbrev owner_unknown : Owner
owner_unknown = record { tenant_id = none; domain_id = none }

store_reports_again_example :
    let first = store_reports decoders 6 owner_unknown xml_report sample in
    store_reports decoders 7 owner_unknown xml_report first.1 ≡ (ok (1, 0), first.1)
unfolding store_reports text_eq extract_report_payloads classify parse_aggregate_xml plain_tag
store_reports_again_example =
    store_reports_again decoders 6 7 owner_unknown owner_unknown xml_report sample
      (store_reports decoders 6 owner_unknown xml_report sample).1 {t = (1, 1)} refl (Holds-refl _)

abbrev uploaded : Stored
uploaded = record { aggregate = 1; tlsrpt = 0; skipped = 0 }

process_upload_counted_example :
    let db' = (process_upload decoders (codes "r.xml") xml_report sample).1 in
    (length db'.aggregate_reports ≡ 0 + 1) × (length db'.tls_reports ≡ 0 + 0) × (1 + 0 + 0 ≢ 0)
unfolding process_upload text_eq extract_report_payloads classify parse_aggregate_xml plain_tag
process_upload_counted_example =
    process_upload_counted decoders (codes "r.xml") xml_report sample uploaded refl

run_http : (process_tlsrpt_http decoders json_report sample).0 ≡ ok true
unfolding process_tlsrpt_http text_eq parse_tlsrpt_json
run_http = refl
