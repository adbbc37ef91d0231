-- ===== src/Spf/Cached.antt =====
-- The lookups of ingest/spf.py, `_txt` and `_addresses`, and its cache of expanded records,
-- `cached_expand`. Instants are milliseconds of `time.monotonic`; when an expansion ends is a parameter.
use dmarc_service.Base.{
  ℕ, ◌-◌, ◌<◌, ◌≡◌, List, [], ◌++◌, Option, none, some, ltb, Bool-cases, Option-cases, inl, inr,
  refl, true, if◌then◌else◌, arith,
}
use dmarc_service.Base.Text.{Text}
use dmarc_service.Base.Dict
use dmarc_service.Base.Dict.{Dict}
use dmarc_service.Resolver.{Resolver, public_servers, answers_or_none}
use dmarc_service.ControlPlane.Resolve.{texts_of}
use dmarc_service.Spf.Expand.{Dns, expand_with_cost}

-- one undecodable answer loses them all
abbrev pub texts_or_none : Option (List Text) → List Text
texts_or_none none = []
texts_or_none (some ts) = ts

-- the answers at one instant
unfoldable pub dns_at : Resolver → ℕ → Dns
unfolding texts_of
dns_at resolver now = record {
  txt = λ name.
      texts_or_none
        (texts_of resolver.decode (answers_or_none (resolver.txt public_servers name now).0));
  addresses = λ name.
      answers_or_none (resolver.a public_servers name now).0
      ++ answers_or_none (resolver.aaaa public_servers name now).0;
  exchanges = λ name. answers_or_none (resolver.mx public_servers name now).0;
}

abbrev pub cache_ttl : ℕ
cache_ttl = 3600000

abbrev pub SpfCache : Type 0 → Type 0
SpfCache Network = Dict (ℕ × List Network)

module _ {Network : Type 0} (resolver : Resolver) (ip_network : Text → Option Network)
    (ends : Text → ℕ → ℕ) where
  -- networks = expand(domain); _cache[domain] = (time.monotonic(), networks)
  unfoldable pub expand_anew : Text → ℕ → SpfCache Network → List Network × SpfCache Network
  unfolding Dict.insert expand_with_cost dns_at
  expand_anew domain now cache =
      let networks = (expand_with_cost (dns_at resolver now) ip_network domain).0 in
      (networks, Dict.insert domain (ends domain now, networks) cache)

  unfoldable pub cached_expand : Text → ℕ → SpfCache Network → List Network × SpfCache Network
  unfolding expand_anew Dict.lookup
  cached_expand domain now cache = elim (Dict.lookup domain cache) [
    | none ↦ expand_anew domain now cache
    | some (at, networks) ↦
        if ltb (now - at) cache_ttl then (networks, cache) else expand_anew domain now cache
  ]

module _ {Network : Type 0} (resolver : Resolver) (ip_network : Text → Option Network)
    (ends : Text → ℕ → ℕ) (domain : Text) where
  -- An entry that is less than an hour old is given as it is, whatever the network answers.
  cached_expand_young :
      (now at : ℕ) (networks : List Network) (cache : SpfCache Network)
      → Dict.lookup domain cache ≡ some (at, networks)
      → now - at < cache_ttl
      → cached_expand resolver ip_network ends domain now cache ≡ (networks, cache)
  unfolding cached_expand
  cached_expand_young now at networks cache held young =
      let fresh : ltb (now - at) cache_ttl ≡ true = ground arith in
      rw (cached_expand, held) (rw fresh refl)

  -- What is given is what is then in the cache.
  cached_expand_held :
      (now : ℕ) (cache : SpfCache Network)
      → let (networks, cache') = cached_expand resolver ip_network ends domain now cache in
        (at : ℕ) × (Dict.lookup domain cache' ≡ some (at, networks))
  unfolding cached_expand expand_anew
  cached_expand_held now cache = elim (Option-cases (Dict.lookup domain cache)) [
    | inl missing ↦
        rw (cached_expand, missing) (ends domain now, Dict.lookup-insert_self domain _ cache)
    | inr ((at, networks), held) ↦ elim (Bool-cases (ltb (now - at) cache_ttl)) [
      | inl young ↦ rw (cached_expand, held) (rw young (at, held))
      | inr old ↦
          rw (cached_expand, held)
            (rw old (ends domain now, Dict.lookup-insert_self domain _ cache))
    ]
  ]
