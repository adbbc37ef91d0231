-- ===== src/Ui/View/Report.antt =====
-- `report_page` of api/ui.py. What `cached_expand` (Spf/Cached) gives for a domain, the lookup of an
-- address (Enrich/Lookup), and whether an address is in a network, are parameters here.
use dmarc_service.Base.{
  ℕ, ◌++◌, Bool, List, Option, none, some, find, map, length, ◌==◌, if◌then◌else◌,
}
use dmarc_service.Base.Int.{ℤ, leb_ℤ}
use dmarc_service.Base.Order.{ordered}
use dmarc_service.Base.Text.{Text, codes, is_empty, text_or}
use dmarc_service.Base.Exec.{ok, raised, http_exception}
use dmarc_service.Schema.{IpIntel, AggregateRecord, AggregateReport, Db}
use dmarc_service.Spf.Expand.{SenderClass, sender_class}
use dmarc_service.Enrich.{describe}
use dmarc_service.Enrich.Ips.{has_ip, enrich_ips}
use dmarc_service.Reports.Rows.{ReportRow, report_row, is_passed}
use dmarc_service.Ui.Pages.{Pagination, pagination, window}
use dmarc_service.Ui.View.Guard.{View, shown, for_user}

pub record RecordRow : Type 0 where
  pub source_ip : Text
  pub owner : Text
  pub spf_status : SenderClass
  pub ptr : Text
  pub count : ℤ
  pub ok : Bool
  pub disposition : Text
  pub dkim : Text
  pub spf : Text
  pub header_from : Text
  pub sender_hint : Text
  pub auth_dkim : Text
  pub auth_spf : Text

-- f"{domain}: {result}" if domain else "-"
abbrev pub auth_text : Text → Text → Text
auth_text domain result = if is_empty domain then codes "-" else domain ++ (codes ": " ++ result)

-- intel.get(ip)
unfoldable pub intel_of : Db → Text → Option IpIntel
intel_of db ip = if is_empty ip then none else find (has_ip ip) db.ip_intel

abbrev pub ptr_of : Option IpIntel → Text
ptr_of none = codes ""
ptr_of (some intel) = intel.ptr

-- sorted(records, key=lambda r: -r.count)
unfoldable pub by_count : List AggregateRecord → List AggregateRecord
unfolding ordered
by_count = ordered (λ (r s : AggregateRecord). leb_ℤ s.count r.count)

pub record ReportPage : Type 0 where
  pub report : ReportRow
  pub records : List RecordRow
  pub pages : Pagination

module _ {Network Address : Type 0} (ip_address : Text → Option Address)
    (is_in : Address → Network → Bool) (networks_of : Text → List Network) (lookup : Text → IpIntel)
    (link : ℕ → Text) where
  unfoldable pub record_row : Db → Text → AggregateRecord → RecordRow
  unfolding is_passed describe intel_of sender_class
  record_row db policy_domain r =
      let intel = intel_of db r.source_ip in
      record {
        source_ip = r.source_ip;
        owner = describe intel;
        spf_status =
            sender_class ip_address is_in (networks_of policy_domain) r.source_ip (is_passed r);
        ptr = ptr_of intel;
        count = r.count;
        ok = is_passed r;
        disposition = r.disposition;
        dkim = text_or r.dkim_result (codes "-");
        spf = text_or r.spf_result (codes "-");
        header_from = r.header_from;
        sender_hint = text_or r.auth_dkim_domain (text_or r.auth_spf_domain r.envelope_from);
        auth_dkim = auth_text r.auth_dkim_domain r.auth_dkim_result;
        auth_spf = auth_text r.auth_spf_domain r.auth_spf_result;
      }

  -- what the template is given
  unfoldable pub report_shown : AggregateReport → ℤ → Db → ReportPage
  unfolding pagination record_row report_row by_count
  report_shown report wanted db =
      let records = by_count report.records in
      let pages = pagination link wanted (length records) in
      record {
        report = report_row report;
        records = map (record_row db report.policy_domain) (window link pages records);
        pages = pages;
      }

  -- the database once the addresses in the report are looked up
  abbrev pub looked_up : AggregateReport → Db → Db
  looked_up report db =
      enrich_ips lookup (map (λ (r : AggregateRecord). r.source_ip) report.records) 25 db

  -- the page of the report that was found, if any
  unfoldable pub show_report : Option AggregateReport → ℤ → View ReportPage
  unfolding enrich_ips report_shown
  show_report none wanted v = (raised (http_exception 404 (codes "report not found")), v)
  show_report (some report) wanted v =
      let db = looked_up report v.db in
      (ok (shown (report_shown report wanted db)), record v { db = db })

  unfoldable pub report_page : ℕ → ℤ → View ReportPage
  unfolding show_report
  report_page report_id wanted = for_user (λ user v.
      show_report (find (λ (r : AggregateReport). r.id == report_id) v.db.aggregate_reports) wanted
        v)
