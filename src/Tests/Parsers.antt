-- ===== src/Tests/Parsers.antt =====
-- Messages with an attachment that cannot be read, and a parsed report.
use dmarc_service.Base.{◌≡◌, ◌≢◌, refl, false, [], ◌∷◌, some, none, length, select, take}
use dmarc_service.Base.Int.{pos}
use dmarc_service.Base.Rows.{All}
use dmarc_service.Base.Text.{Bytes, codes, text_eq, lower}
use dmarc_service.Base.Exec.{ok, os_error}
use dmarc_service.Parsers.Types.{ParsedAggregateReport}
use dmarc_service.Parsers.Decoders.{Part, Element, Decoders}
use dmarc_service.Parsers.Documents.{payloads_of, decompress, is_prose, is_caught}
use dmarc_service.Parsers.Xml.{plain_tag, find_all, children_of, strip_namespaces}
use dmarc_service.Parsers.Aggregate.{parse_aggregate_xml, feedback_root}
use dmarc_service.Parsers.Extraction.{part_unreadable}
use dmarc_service.Parsers.Normalised.{parse_aggregate_xml_lem, has_row, IsLowerCase}
use dmarc_service.Tests.Samples.{decoders, xml_report}

abbrev corrupt : Part
corrupt = record {
  is_multipart = false;
  payload = some (0x1f ∷ 0x8b ∷ []);
  content_type = codes "application/gzip";
  filename = some (codes "r.gz");
}

abbrev readable : Part
readable = record {
  is_multipart = false;
  payload = some xml_report;
  content_type = codes "text/xml";
  filename = none;
}

part_unreadable_example :
    payloads_of decoders (readable ∷ corrupt ∷ readable ∷ [])
    ≡ payloads_of decoders (readable ∷ readable ∷ [])
unfolding is_caught is_prose decompress
part_unreadable_example =
    part_unreadable decoders (readable ∷ []) (readable ∷ []) corrupt (0x1f ∷ 0x8b ∷ [])
      (os_error (codes "not gzipped")) refl refl refl refl

found_in_message : payloads_of decoders (corrupt ∷ readable ∷ []) ≡ ok (xml_report ∷ [])
unfolding payloads_of text_eq
found_in_message = refl

-- a digest that is never empty
abbrev hashing : Decoders
hashing = record decoders { sha256 = λ b. codes "ab" }

hash_nonempty : (content : Bytes) → take 32 (hashing.sha256 content) ≢ []
hash_nonempty content e = cc

abbrev parsed : ParsedAggregateReport
parsed = record {
  org_name = codes "g";
  org_email = [];
  report_id = codes "r1";
  date_begin = 5;
  date_end = 5;
  policy_domain = codes "a.com";
  policy_adkim = codes "r";
  policy_aspf = codes "r";
  policy_p = codes "none";
  policy_sp = [];
  policy_pct = pos 1;
  records =
      record {
        source_ip = codes "1.2.3.4";
        count = pos 1;
        disposition = codes "none";
        dkim_result = [];
        spf_result = [];
        header_from = [];
        envelope_from = [];
        auth_dkim_domain = [];
        auth_dkim_result = [];
        auth_spf_domain = [];
        auth_spf_result = [];
      }
      ∷ [];
}

parse_aggregate_xml_lem_example :
    (tree : Element) × (hashing.xml xml_report ≡ ok tree)
    × (parsed.org_name ≢ [])
    × (parsed.report_id ≢ [])
    × (lower parsed.policy_domain ≡ parsed.policy_domain)
    × (length parsed.records
        ≡ length (
            select has_row
              (find_all (codes "record") (children_of (feedback_root (strip_namespaces tree))))))
    × All IsLowerCase parsed.records
unfolding parse_aggregate_xml text_eq plain_tag
parse_aggregate_xml_lem_example =
    parse_aggregate_xml_lem hashing xml_report {p = parsed} hash_nonempty refl
