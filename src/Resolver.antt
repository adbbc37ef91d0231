-- ===== src/Resolver.antt =====
-- A `Resolver` of dnspython, which asks the nameservers that it is given. The library and the network
-- behind it are a parameter: an answer depends on the instant of the question, and comes with the
-- instant at which it arrives.
use dmarc_service.Base.{ℕ, List, [], ◌∷◌, Option}
use dmarc_service.Base.Text.{Text, Bytes, codes}

-- `absent` is NXDOMAIN or NoAnswer, `failed` any other exception.
pub data Answers (A : Type 0) : Type 0 where
  found : List A → Answers A
  absent failed : Answers A

abbrev pub Lookup : Type 0 → Type 0
Lookup A = List Text → Text → ℕ → Answers A × ℕ

pub record Resolver : Type 0 where
  -- str(r.target), str(r.exchange) and str(r) of the answers
  pub ns : Lookup Text
  pub mx : Lookup Text
  pub a : Lookup Text
  pub aaaa : Lookup Text
  -- r.strings
  pub txt : Lookup (List Bytes)
  -- bytes.decode, `none` where it raises
  pub decode : Bytes → Option Text

-- the public resolvers
abbrev pub public_servers : List Text
public_servers = codes "1.1.1.1" ∷ codes "8.8.8.8" ∷ []

abbrev pub answers_or_none : {A : Type 0} → Answers A → List A
answers_or_none (Answers.found xs) = xs
answers_or_none Answers.absent = []
answers_or_none Answers.failed = []
