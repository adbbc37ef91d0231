-- ===== src/Parsers/Tlsrpt.antt =====
-- `parse_tlsrpt_json` of ingest/parsers.py. The program does not check that the values which the database
-- keeps as text are texts: any other value is what `column_value` gives for it, and whether the row is
-- taken is decided when it is flushed.
use dmarc_service.Base.{ℕ, zero, Bool, true, false, List, [], ◌∷◌, if◌then◌else◌, String}
use dmarc_service.Base.Int.{pos}
use dmarc_service.Base.Text.{Text, Bytes, codes, is_empty, text_eq, lower}
use dmarc_service.Base.Exec.{other, Result, ok, raised}
use dmarc_service.Base.Fallible.{◌>>=◌}
use dmarc_service.Parsers.Types.{ParsedTlsReport}
use dmarc_service.Parsers.Decoders.{
  Json, null, boolean, number, string, array, object, Items, nil_items, cons_item, Fields,
  nil_fields, cons_field, Decoders,
}

-- datetime.fromtimestamp(0, tz=UTC), in seconds since 0001-01-01
abbrev pub unix_epoch : ℕ
unix_epoch = 62135596800

abbrev pub type_error : {A : Type 0} → Result A
type_error = raised (other (codes "unexpected JSON value"))

abbrev pub get_field : Text → Json → Fields → Json
get_field key default nil_fields = default
get_field key default (cons_field k v fields) =
    if text_eq k key then v else get_field key default fields

-- value.get(key, default)
unfoldable pub get : Json → String → Json → Result Json
unfolding text_eq
get (object fields) key default = ok (get_field (codes key) default fields)
get _ key default = type_error

-- Python's truth of a value
unfoldable pub truthy : Json → Bool
truthy null = false
truthy (boolean b) = b
truthy (number (pos zero)) = false
truthy (number _) = true
truthy (string s) = if is_empty s then false else true
truthy (array nil_items) = false
truthy (array _) = true
truthy (object nil_fields) = false
truthy (object _) = true

unfoldable pub as_text : Json → Result Text
as_text (string s) = ok s
as_text _ = type_error

abbrev empty_object : Json
empty_object = object nil_fields

-- the lower-cased domains of the policies that name one
unfoldable pub domains_of : Items → Result (List Text)
unfolding get truthy as_text lower
domains_of nil_items = ok []
domains_of (cons_item item items) =
    let rest = domains_of items in
    get item "policy" empty_object >>= λ policy.
    get policy "policy-domain" (string []) >>= λ domain.
    if truthy domain then (as_text domain >>= λ d. rest >>= λ ds. ok (lower d ∷ ds)) else rest

-- the loop over `policies`
unfoldable pub iterate_policies : Json → Result (List Text)
unfolding domains_of
iterate_policies (array items) = domains_of items
iterate_policies (object nil_fields) = ok []
iterate_policies (string []) = ok []
iterate_policies _ = type_error

module _ (dec : Decoders) where
  abbrev as_column : Json → Text
  as_column (string s) = s
  as_column value = dec.column_value value

  unfoldable pub parse_rfc3339 : Json → Result ℕ
  unfolding truthy as_text
  parse_rfc3339 value =
      if truthy value then (as_text value >>= λ s. dec.fromisoformat s) else ok unix_epoch

  unfoldable pub parse_tlsrpt_json : Bytes → Result ParsedTlsReport
  unfolding get iterate_policies as_text parse_rfc3339
  parse_tlsrpt_json document = do
    body ← dec.loads document
    date_range ← get body "date-range" empty_object
    policies ← get body "policies" (array nil_items)
    domains ← iterate_policies policies
    organization_name ← get body "organization-name" (string [])
    report_id ← get body "report-id" (string [])
    begin ← get date_range "start-datetime" (string [])
    begin ← parse_rfc3339 begin
    end ← get date_range "end-datetime" (string [])
    end ← parse_rfc3339 end
    contact_info ← get body "contact-info" (string [])
    ok (record {
      organization_name = as_column organization_name;
      report_id = as_column report_id;
      date_begin = begin;
      date_end = end;
      contact_info = as_column contact_info;
      body = dec.dumps body;
      policy_domains = domains;
    })
