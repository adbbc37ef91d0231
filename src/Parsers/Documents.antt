-- ===== src/Parsers/Documents.antt =====
-- `decompress`, `extract_report_payloads` and `classify` of ingest/parsers.py.
use dmarc_service.Base.{
  Bool, true, false, not, ◌&&◌, ◌||◌, List, [], ◌∷◌, ◌++◌, none, some, take, if◌then◌else◌,
}
use dmarc_service.Base.Text.{
  Text, Bytes, codes, is_empty, lower, lstrip, text_eq, starts_with, ends_with, occurs,
}
use dmarc_service.Base.Exec.{
  Exc, os_error, bad_zip_file, eof_error, json_decode_error, other, Result, ok, raised,
}
use dmarc_service.Parsers.Decoders.{
  Part, ZipEntry, Json, object, Fields, nil_fields, cons_field, Decoders,
}

abbrev pub gzip_magic : Bytes
gzip_magic = 0x1f ∷ 0x8b ∷ []

abbrev pub zip_magic : Bytes
zip_magic = b'P' ∷ b'K' ∷ 3 ∷ 4 ∷ []

-- the archive members that are no directories, in order; a failing read ends the loop
unfoldable pub read_members : List ZipEntry → Result (List Bytes)
read_members [] = ok []
read_members (e ∷ entries) =
    let rest = read_members entries in
    if e.is_dir then rest else elim e.content [
      | raised x ↦ raised x
      | ok content ↦ elim rest [ raised x ↦ raised x | ok out ↦ ok (content ∷ out) ]
    ]

unfoldable pub is_gzip : Bytes → Text → Bool
unfolding text_eq ends_with lower
is_gzip payload filename =
    text_eq (take 2 payload) gzip_magic
    || (ends_with (lower filename) (codes ".gz") || ends_with (lower filename) (codes ".gzip"))

unfoldable pub is_zip : Bytes → Text → Bool
unfolding text_eq ends_with lower
is_zip payload filename =
    text_eq (take 4 payload) zip_magic || ends_with (lower filename) (codes ".zip")

-- what the exceptions that `extract_report_payloads` catches have in common
unfoldable pub is_caught : Exc → Bool
is_caught (os_error _) = true
is_caught (bad_zip_file _) = true
is_caught (eof_error _) = true
is_caught _ = false

-- the values of `classify`
pub data Kind : Type 0 where
  aggregate tlsrpt unknown : Kind

-- `key in head`, for an object
unfoldable pub has_key : Text → Fields → Bool
unfolding text_eq
has_key key nil_fields = false
has_key key (cons_field k v fields) = text_eq k key || has_key key fields

module _ (dec : Decoders) where
  unfoldable pub decompress : Bytes → Text → Result (List Bytes)
  unfolding is_gzip is_zip read_members
  decompress payload filename =
      if is_gzip payload filename
      then elim (dec.gunzip payload) [ raised x ↦ raised x | ok document ↦ ok (document ∷ []) ]
      else if is_zip payload filename
      then elim (dec.unzip payload) [ raised x ↦ raised x | ok entries ↦ read_members entries ]
      else ok (payload ∷ [])

  abbrev pub name_of : Part → Text
  name_of part = elim part.filename [ none ↦ [] | some name ↦ name ]

  -- a human-readable text part that is no report document
  unfoldable pub is_prose : Part → Bytes → Bool
  unfolding starts_with lstrip
  is_prose part content =
      starts_with part.content_type (codes "text/plain")
      && is_empty (name_of part)
      && not (starts_with (lstrip content) (codes "<") || starts_with (lstrip content) (codes "{"))

  -- the documents of one part; an exception that is not caught leaves the walk
  unfoldable pub part_payloads : Part → Result (List Bytes)
  unfolding decompress is_prose is_caught
  part_payloads part = if part.is_multipart then ok [] else elim part.payload [
    | none ↦ ok []
    | some content ↦
        if is_empty content || is_prose part content
        then ok []
        else elim (decompress content (name_of part)) [
          | ok documents ↦ ok documents
          | raised x ↦ if is_caught x then ok [] else raised x
        ]
  ]

  unfoldable pub payloads_of : List Part → Result (List Bytes)
  unfolding part_payloads
  payloads_of [] = ok []
  payloads_of (part ∷ parts) =
      let rest = payloads_of parts in
      elim (part_payloads part) [
        | raised x ↦ raised x
        | ok documents ↦ elim rest [ raised x ↦ raised x | ok out ↦ ok (documents ++ out) ]
      ]

  unfoldable pub extract_report_payloads : Bytes → Result (List Bytes)
  unfolding payloads_of
  extract_report_payloads content = payloads_of (dec.walk content)

  -- A text that begins with a brace decodes to an object, so the last branch is never taken.
  kind_of_json : Result Json → Result Kind
  unfolding has_key
  kind_of_json (raised (json_decode_error _)) = ok Kind.unknown
  kind_of_json (raised x) = raised x
  kind_of_json (ok (object fields)) = ok (
      if has_key (codes "organization-name") fields || has_key (codes "policies") fields
      then Kind.tlsrpt
      else Kind.unknown)
  kind_of_json (ok _) = raised (other (codes "argument is not iterable"))

  unfoldable pub classify : Bytes → Result Kind
  unfolding kind_of_json starts_with lstrip occurs
  classify document =
      let stripped = lstrip document in
      let head = take 2000 stripped in
      if starts_with stripped (codes "<")
      then ok (
          if occurs (codes "<feedback") head || occurs (codes "report_metadata") head
          then Kind.aggregate
          else Kind.unknown)
      else if starts_with stripped (codes "{")
      then kind_of_json (dec.loads stripped)
      else ok Kind.unknown
