-- ===== src/ControlPlane/Resolve.antt =====
-- `_authoritative_nameservers` and `_resolve_txt` of control_plane/service.py: the lookup behind the
-- cache of Check.
use dmarc_service.Base.{ℕ, List, [], ◌∷◌, ◌++◌, Option, none, some, ◌==◌}
use dmarc_service.Base.Text.{Text, Bytes, rstrip_by}
use dmarc_service.Resolver.{
  Answers, found, absent, failed, Resolver, public_servers, answers_or_none,
}
use dmarc_service.ControlPlane.Provision.{org_domain}

-- "".join(s.decode() for s in r.strings)
unfoldable pub text_of : (Bytes → Option Text) → List Bytes → Option Text
text_of decode [] = some []
text_of decode (s ∷ strings) =
    let rest = text_of decode strings in
    elim (decode s) [ none ↦ none | some t ↦ elim rest [ none ↦ none | some ts ↦ some (t ++ ts) ] ]

unfoldable pub texts_of : (Bytes → Option Text) → List (List Bytes) → Option (List Text)
unfolding text_of
texts_of decode [] = some []
texts_of decode (r ∷ answers) =
    let rest = texts_of decode answers in
    elim (text_of decode r) [
      | none ↦ none
      | some t ↦ elim rest [ none ↦ none | some ts ↦ some (t ∷ ts) ]
    ]

-- the public resolvers are asked where no nameserver is known
abbrev pub servers_of : Option (List Text) → List Text
servers_of none = public_servers
servers_of (some []) = public_servers
servers_of (some (s ∷ servers)) = s ∷ servers

module _ (resolver : Resolver) where
  -- the loop over the nameservers; one that cannot be reached is skipped
  unfoldable pub nameserver_addresses : List Text → ℕ → List Text × ℕ
  unfolding rstrip_by
  nameserver_addresses [] now = ([], now)
  nameserver_addresses (target ∷ targets) now =
      let (answers, now') = resolver.a public_servers (rstrip_by (λ c. c == b'.') target) now in
      let (ips, now'') = nameserver_addresses targets now' in
      (answers_or_none answers ++ ips, now'')

  -- `none` where the lookup of the nameservers raises
  unfoldable pub authoritative_nameservers : Text → ℕ → Option (List Text) × ℕ
  unfolding nameserver_addresses
  authoritative_nameservers zone now =
      let (answers, now') = resolver.ns public_servers zone now in
      elim answers [
        | found targets ↦
            (let (ips, now'') = nameserver_addresses targets now' in (some ips, now''))
        | absent ↦ (none, now')
        | failed ↦ (none, now')
      ]

  -- the answers as texts: [] where the name has none, `none` where the lookup or a decoding failed
  unfoldable pub txt_answers : Answers (List Bytes) → Option (List Text)
  unfolding texts_of
  txt_answers (found answers) = texts_of resolver.decode answers
  txt_answers absent = some []
  txt_answers failed = none

  unfoldable pub resolve_txt : (Text → Text) → Text → ℕ → Option (List Text) × ℕ
  unfolding authoritative_nameservers txt_answers org_domain
  resolve_txt top_domain name now =
      let (nameservers, now') = authoritative_nameservers (org_domain top_domain name) now in
      let (answers, now'') = resolver.txt (servers_of nameservers) name now' in
      (txt_answers answers, now'')
