-- ===== src/Enrich/Learned.antt =====
-- Looking addresses up loses nothing that was known.
use dmarc_service.Base.{
  ℕ, ◌≤◌, ◌≡◌, refl, Bool, true, not, ◌&&◌, ◌||◌, List, [], ◌∷◌, any, map, length, update_first,
  Bool-cases, inl, inr, arith, length-take_le, any-append_left,
}
use dmarc_service.Base.Rows.{All, All-map}
use dmarc_service.Base.Text.{Text, is_empty, text_eq, text_eq_refl, text_or}
use dmarc_service.Schema.{IpIntel, Db}
use dmarc_service.Enrich.Ips.{has_ip, wanted, todo, merge, is_nothing, learn, learn_all, enrich_ips}

-- a text that is known stays known
abbrev pub stays_known : Text → Text → Bool
stays_known old new = is_empty old || not (is_empty new)

abbrev pub keeps_known : IpIntel → IpIntel → Bool
keeps_known old new =
    text_eq new.ip old.ip
    && (stays_known old.ptr new.ptr
        && (stays_known old.netname new.netname && stays_known old.org new.org))

-- Every row of the first table has a row of the second that knows no less of the same address.
abbrev pub KeepsAll : List IpIntel → List IpIntel → Type 0
KeepsAll before after = All (λ old. any (keeps_known old) after ≡ true) before

known_or :
    (found old new : Text) → stays_known old new ≡ true → stays_known old (text_or found new) ≡ true
known_or [] old new h = h
known_or (c ∷ found) old new h = ground arith

keeps_refl : (row : IpIntel) → keeps_known row row ≡ true
keeps_refl row = rw (text_eq_refl row.ip) (ground arith)

keeps_merge :
    (found old new : IpIntel)
    → keeps_known old new ≡ true
    → keeps_known old (merge found new) ≡ true
keeps_merge found old new h =
    let p : stays_known old.ptr new.ptr ≡ true = ground arith in
    let n : stays_known old.netname new.netname ≡ true = ground arith in
    let o : stays_known old.org new.org ≡ true = ground arith in
    ground (
      arith,
      known_or found.ptr old.ptr new.ptr p,
      known_or found.netname old.netname new.netname n,
      known_or found.org old.org new.org o,
    )

any-merge :
    (found old : IpIntel) (p : IpIntel → Bool) (rows : List IpIntel)
    → any (keeps_known old) rows ≡ true
    → any (keeps_known old) (update_first p (merge found) rows) ≡ true
any-merge found old p [] h = h
any-merge found old p (row ∷ rows) h = elim (Bool-cases (p row)) [
  | inl hit ↦ rw hit (elim (Bool-cases (keeps_known old row)) [
    | inl here ↦ rw (keeps_merge found old row here) refl
    | inr later ↦ ground arith
  ])
  | inr miss ↦ rw miss (elim (Bool-cases (keeps_known old row)) [
    | inl here ↦ rw here refl
    | inr later ↦ ground (arith, any-merge found old p rows)
  ])
]

learn_keeps :
    (found : IpIntel) (before rows : List IpIntel)
    → KeepsAll before rows
    → KeepsAll before (learn found rows)
unfolding learn
learn_keeps found before rows h = elim (Bool-cases (is_nothing found)) [
  | inl nothing ↦ rw (learn, nothing) h
  | inr something ↦ elim (Bool-cases (any (has_ip found.ip) rows)) [
    | inl known ↦
        rw (learn, something)
          (rw known (All-map before (λ old k. any-merge found old (has_ip found.ip) rows k) h))
    | inr new ↦
        rw (learn, something)
          (rw new
            (All-map before (λ old k. any-append_left (keeps_known old) rows (found ∷ []) k) h))
  ]
]

learn_all_keeps :
    (more before rows : List IpIntel) → KeepsAll before rows → KeepsAll before (learn_all more rows)
unfolding learn_all
learn_all_keeps [] before rows h = h
learn_all_keeps (found ∷ more) before rows h =
    learn_all_keeps more before (learn found rows) (learn_keeps found before rows h)

KeepsAll-refl : (rows : List IpIntel) → KeepsAll rows rows
KeepsAll-refl [] = tt
KeepsAll-refl (row ∷ rows) =
    (rw (keeps_refl row) refl, All-map rows (λ old k. ground (arith, k)) (KeepsAll-refl rows))

-- Whatever the lookups find, no address that is known is lost and no text that is known of it becomes
-- empty; and at most as many addresses are looked up as the limit says.
pub enrich_ips_lem :
    (lookup : Text → IpIntel) (ips : List Text) (limit : ℕ) (db : Db)
    → KeepsAll db.ip_intel (enrich_ips lookup ips limit db).ip_intel
      × (length (todo db (wanted ips) limit) ≤ limit)
unfolding enrich_ips todo
enrich_ips_lem lookup ips limit db = (
  learn_all_keeps (map lookup (todo db (wanted ips) limit)) db.ip_intel db.ip_intel
      (KeepsAll-refl db.ip_intel),
  length-take_le limit _,
)
