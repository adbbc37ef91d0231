-- ===== src/Enrich/Lookup.antt =====
-- `lookup` of ingest/enrich.py: what reverse DNS and the registry tell of an address. Both answers are
-- parameters, `none` where the request raises.
use dmarc_service.Base.{◌==◌, List, [], Option, none, some, take}
use dmarc_service.Base.Text.{Text, rstrip_by}
use dmarc_service.Schema.{IpIntel}
use dmarc_service.Enrich.{Contact, organisation}

-- the name of the network, which can be empty, and its contacts that have a vCard
pub record Registration : Type 0 where
  pub name : Text
  pub contacts : List Contact

unfoldable pub ptr_name : Option Text → Text
unfolding rstrip_by
ptr_name none = []
ptr_name (some answer) = rstrip_by (λ c. c == b'.') answer

-- the name of the network, and the organisation
unfoldable pub rdap_names : Option Registration → Text × Text
unfolding organisation
rdap_names none = ([], [])
rdap_names (some r) = (take 128 r.name, organisation r.contacts)

module _ (ptr : Text → Option Text) (rdap : Text → Option Registration) where
  unfoldable pub intel_for : Text → IpIntel
  unfolding ptr_name rdap_names
  intel_for ip =
      let (netname, org) = rdap_names (rdap ip) in
      record { ip = ip; ptr = ptr_name (ptr ip); netname = netname; org = org }
