-- ===== src/Backup.antt =====
-- backup.py. The dump program, the object store and urllib are parameters; what was deleted from the
-- store is kept as a list of keys.
pub mod Pruned
use dmarc_service.Base.{
  ℕ, zero, suc, ◌+◌, ◌-◌, ◌*◌, Bool, true, false, not, ◌&&◌, ◌||◌, List, [], ◌∷◌, ◌++◌, Option,
  none, some, select, map, length, ltb, if◌then◌else◌, ◌==◌,
}
use dmarc_service.Base.Int.{ℤ, pos, negsuc}
use dmarc_service.Base.Text.{Text, codes, is_empty, text_eq, strip_by, before, after, decimal}
use dmarc_service.Base.Exec.{Exec, Result, ok, raised, value_error, other, pure, lift, ◌>>=◌, ◌>>◌}
use dmarc_service.Config.{Settings}

-- what urlparse tells of a URL; "" for a part that is missing
pub record Url : Type 0 where
  pub scheme : Text
  pub hostname : Text
  pub username : Text
  pub password : Text
  pub port : Option ℕ
  pub path : Text

pub record Destination : Type 0 where
  pub access_key : Text
  pub secret_key : Text
  pub endpoint : Text
  pub bucket : Text
  pub prefix : Text

abbrev is_slash : ℕ → Bool
is_slash c = c == b'/'

abbrev pub or_blank : Option Text → Text
or_blank none = []
or_blank (some t) = t

unfoldable pub endpoint_of : Url → Text
unfolding decimal
endpoint_of url = elim url.port [
  | none ↦ codes "https://" ++ url.hostname
  | some zero ↦ codes "https://" ++ url.hostname
  | some (suc p) ↦ codes "https://" ++ (url.hostname ++ (codes ":" ++ decimal (suc p)))
]

unfoldable pub destination_of : (Text → Url) → (Text → Text) → Text → Result Destination
unfolding text_eq strip_by before after endpoint_of
destination_of urlparse unquote text =
    let url = urlparse text in
    let path = strip_by is_slash url.path in
    if not (
      text_eq url.scheme (codes "s3")
      || (text_eq url.scheme (codes "s3s") || text_eq url.scheme (codes "https")))
    then raised (value_error (codes "backup URL must start with s3://"))
    else if is_empty url.hostname || is_empty url.username
    then raised (
        value_error (
          codes
            "backup URL must look like s3://<access-key>:<secret-key>@<endpoint-host>/<bucket>[/<prefix>]"))
    else if is_empty (before b'/' path)
    then raised (value_error (codes "backup URL is missing the bucket name"))
    else ok (record {
      access_key = unquote url.username;
      secret_key = unquote url.password;
      endpoint = endpoint_of url;
      bucket = before b'/' path;
      prefix = strip_by is_slash (or_blank (after b'/' path));
    })

unfoldable pub key_for : Destination → Text → Text
key_for d filename = if is_empty d.prefix then filename else (d.prefix ++ (codes "/" ++ filename))

pub record Object : Type 0 where
  pub key : Text
  pub last_modified : ℕ

abbrev pub day_seconds : ℕ
day_seconds = 86400

abbrev pub is_expired : ℕ → Object → Bool
is_expired cutoff o = ltb o.last_modified cutoff

-- the calls of the object store: the pages of a listing by prefix, a deletion, an upload
pub record Store : Type 0 where
  pub pages : Text → Text → List (List Object)
  pub delete : Text → Text → Result (Unit {0})
  pub upload : Text → Text → Result (Unit {0})

module _ (store : Store) (d : Destination) where
  -- the state is the keys that were deleted, in order
  abbrev pub delete_object : Text → Exec (List Text) (Unit {0})
  delete_object key deleted = elim (store.delete d.bucket key) [
    | raised x ↦ (raised x, deleted)
    | ok _ ↦ (ok tt, deleted ++ key ∷ [])
  ]

  unfoldable pub prune_page : ℕ → List Object → ℕ → Exec (List Text) ℕ
  prune_page cutoff [] removed = pure removed
  prune_page cutoff (o ∷ os) removed = elim (is_expired cutoff o) [
    | true ↦ delete_object o.key >> prune_page cutoff os (suc removed)
    | false ↦ prune_page cutoff os removed
  ]

  unfoldable pub prune_pages : ℕ → List (List Object) → ℕ → Exec (List Text) ℕ
  unfolding prune_page
  prune_pages cutoff [] removed = pure removed
  prune_pages cutoff (page ∷ pages) removed =
      prune_page cutoff page removed >>= prune_pages cutoff pages

  unfoldable pub prune : ℕ → ℤ → Exec (List Text) ℕ
  unfolding prune_pages
  prune now (negsuc n) = pure 0
  prune now (pos zero) = pure 0
  prune now (pos (suc days)) =
      prune_pages (now - suc days * day_seconds) (store.pages d.bucket d.prefix) 0

-- `dumped` is the outcome of `create_dump`: the name of the file
unfoldable pub run :
    (Text → Url) → (Text → Text) → Store → Settings → ℕ → Result Text → Exec (List Text) Text
unfolding destination_of key_for prune
run urlparse unquote store settings now dumped deleted =
    if is_empty settings.backup_s3_url
    then (raised (other (codes "BACKUP_S3_URL is not set; nothing to back up to")), deleted)
    else (do
      d ← lift (destination_of urlparse unquote settings.backup_s3_url)
      name ← lift dumped
      lift (store.upload d.bucket (key_for d name))
      prune store d now settings.backup_retention_days
      pure (key_for d name))
        deleted
