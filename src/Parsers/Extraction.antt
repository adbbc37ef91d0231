-- ===== src/Parsers/Extraction.antt =====
-- Which documents `extract_report_payloads` finds in a message.
use dmarc_service.Base.{
  ◌≡◌, refl, false, List, [], ◌∷◌, ◌++◌, some, append_assoc, if◌then◌else◌, ◌||◌, inl, inr,
  Bool-cases, ◌∙◌, ap, sym,
}
use dmarc_service.Base.Text.{Bytes, is_empty}
use dmarc_service.Base.Exec.{Exc, Result, ok, raised, Result-cases}
use dmarc_service.Parsers.Decoders.{Part, Decoders}
use dmarc_service.Parsers.Documents.{
  is_caught, decompress, is_prose, part_payloads, payloads_of, name_of,
}

module _ (dec : Decoders) where
  -- the documents of two runs of parts; the first exception wins
  abbrev both : Result (List Bytes) → Result (List Bytes) → Result (List Bytes)
  both (raised x) r = raised x
  both (ok ds) (raised x) = raised x
  both (ok ds) (ok es) = ok (ds ++ es)

  both_assoc : (a b c : Result (List Bytes)) → both (both a b) c ≡ both a (both b c)
  both_assoc (raised x) b c = refl
  both_assoc (ok ds) (raised x) c = refl
  both_assoc (ok ds) (ok es) (raised x) = refl
  both_assoc (ok ds) (ok es) (ok fs) = ap ok (append_assoc ds es fs)

  empty_left : (r : Result (List Bytes)) → both (ok []) r ≡ r
  empty_left (raised x) = refl
  empty_left (ok ds) = refl

  payloads_of-cons :
      (part : Part) (parts : List Part)
      → payloads_of dec (part ∷ parts) ≡ both (part_payloads dec part) (payloads_of dec parts)
  unfolding payloads_of
  payloads_of-cons part parts = elim (Result-cases (part_payloads dec part)) [
    | inr (x, e) ↦ rw (payloads_of, e) refl
    | inl (ds, e) ↦ elim (Result-cases (payloads_of dec parts)) [
      | inr (x, f) ↦ rw (payloads_of, e) (rw f refl)
      | inl (es, f) ↦ rw (payloads_of, e) (rw f refl)
    ]
  ]

  payloads_of-append :
      (xs ys : List Part)
      → payloads_of dec (xs ++ ys) ≡ both (payloads_of dec xs) (payloads_of dec ys)
  unfolding payloads_of
  payloads_of-append [] ys = sym (empty_left (payloads_of dec ys))
  payloads_of-append (x ∷ xs) ys =
      payloads_of-cons x (xs ++ ys)
      ∙ ap (both (part_payloads dec x)) (payloads_of-append xs ys)
      ∙ sym (both_assoc (part_payloads dec x) (payloads_of dec xs) (payloads_of dec ys))
      ∙ ap (λ r. both r (payloads_of dec ys)) (sym (payloads_of-cons x xs))

  part_fails :
      (part : Part) (content : Bytes) (x : Exc)
      → part.is_multipart ≡ false
      → part.payload ≡ some content
      → (is_empty content || is_prose dec part content) ≡ false
      → decompress dec content (name_of dec part) ≡ raised x
      → part_payloads dec part ≡ (if is_caught x then ok [] else raised x)
  unfolding part_payloads
  part_fails part content x single body read fails =
      rw (part_payloads, single) (rw body (rw read (rw fails refl)))

  -- An attachment that cannot be unpacked, with one of the caught exceptions, is passed over, and the
  -- documents of the parts before and after it are found as if it were not there. Any other
  -- exception fails the message, unless a part before it does.
  pub part_unreadable :
      (before after : List Part) (part : Part) (content : Bytes) (x : Exc)
      → part.is_multipart ≡ false
      → part.payload ≡ some content
      → (is_empty content || is_prose dec part content) ≡ false
      → decompress dec content (name_of dec part) ≡ raised x
      → payloads_of dec (before ++ part ∷ after) ≡ (
          if is_caught x
          then payloads_of dec (before ++ after)
          else both (payloads_of dec before) (raised x))
  part_unreadable before after part content x single body read fails =
      payloads_of-append before (part ∷ after)
      ∙ ap (both (payloads_of dec before)) (
          payloads_of-cons part after
          ∙ ap (λ r. both r (payloads_of dec after))
              (part_fails part content x single body read fails))
      ∙ elim (Bool-cases (is_caught x)) [
        | inl caught ↦ rw caught (
            ap (both (payloads_of dec before)) (empty_left (payloads_of dec after))
            ∙ sym (payloads_of-append before after))
        | inr uncaught ↦ rw uncaught refl
      ]
