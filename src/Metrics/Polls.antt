-- ===== src/Metrics/Polls.antt =====
-- What the metrics say of a poll, and who reads them.
use dmarc_service.Base.{
  ℕ, ◌≡◌, ◌≢◌, refl, ◌∙◌, ap, Bool, true, false, not, [], ◌∷◌, ◌++◌, some, Bool-cases, inl, inr,
  arith, if◌then◌else◌,
}
use dmarc_service.Base.Text.{
  Text, codes, is_empty, occurs, starts_with, decimal, text_eq, eq_of_text_eq,
}
use dmarc_service.Base.Exec.{ok}
use dmarc_service.Config.{Settings}
use dmarc_service.Schema.{ImapAccount}
use dmarc_service.Imap.Fetch.{FetchCounts}
use dmarc_service.Imap.Poll.{result_of, with_result}
use dmarc_service.Metrics.Gauges.{poll_failed}
use dmarc_service.Metrics.Server.{MetricsServer, presented, authorized, do_get, serve}

occurs_here : (p s : Text) → starts_with s p ≡ true → occurs p s ≡ true
unfolding occurs
occurs_here [] [] h = refl
occurs_here (b ∷ p) [] h = cc
occurs_here p (a ∷ s) h = rw h refl

occurs_later : (p s t : Text) → occurs p t ≡ true → occurs p (s ++ t) ≡ true
unfolding occurs
occurs_later p [] t h = h
occurs_later p (a ∷ s) t h = ground (arith, occurs_later p s t h)

nonempty_append : (s : Text) (a : ℕ) (t : Text) → is_empty (s ++ a ∷ t) ≡ false
nonempty_append [] a t = refl
nonempty_append (b ∷ s) a t = refl

-- A mailbox whose poll returned is not counted as failing, whatever was stored.
pub poll_failed-result_of :
    (now : ℕ) (n : FetchCounts) (row : ImapAccount)
    → poll_failed (with_result now (result_of (ok n)) row) ≡ false
unfolding poll_failed result_of starts_with
poll_failed-result_of now n row =
    let rest = decimal n.failed ++ codes " failed" in
    let found : occurs (codes "stored") (codes " stored, " ++ rest) ≡ true =
      occurs_later (codes "stored") (codes " ") (codes "stored, " ++ rest)
        (occurs_here (codes "stored") (codes "stored, " ++ rest) refl) in
    rw (occurs_later (codes "stored") (decimal n.stored) (codes " stored, " ++ rest) found)
      (ground arith)

token_of :
    (settings : Settings) (server : MetricsServer)
    → serve settings ≡ ok (some server)
    → settings.metrics_allow_unauthenticated ≡ false
    → (is_empty settings.metrics_token ≡ false) × (server.token ≡ settings.metrics_token)
unfolding serve
token_of settings server started closed = elim (Bool-cases settings.metrics_enabled) [
  | inr off ↦ cc (rw (serve, off) at started)
  | inl on ↦ elim (Bool-cases (is_empty settings.metrics_token)) [
    | inl empty ↦ cc (rw (closed) at (rw (empty) at (rw (serve, on) at started)))
    | inr token ↦ (token, cc (rw token at (rw (serve, on) at started)))
  ]
]

abbrev status_for : Bool → Bool → ℕ
status_for missing allowed = if missing then 404 else if not allowed then 401 else 200

answered_only : (missing allowed : Bool) → status_for missing allowed ≡ 200 → allowed ≡ true
answered_only true allowed e = ground arith
answered_only false true e = refl
answered_only false false e = ground arith

authorized_of :
    (server : MetricsServer) (path header : Text)
    → do_get server path header ≡ 200
    → authorized server header ≡ true
unfolding do_get
authorized_of server path header e = answered_only _ (authorized server header) e

nonempty_text : (t : Text) → is_empty t ≡ false → t ≢ []
nonempty_text [] h = cc
nonempty_text (c ∷ t) h = λ e. cc

-- Where metrics are served and an open listener was not asked for, nobody reads them without the
-- configured token.
pub do_get-serve :
    (settings : Settings) (server : MetricsServer) (path header : Text)
    → serve settings ≡ ok (some server)
    → settings.metrics_allow_unauthenticated ≡ false
    → do_get server path header ≡ 200
    → (settings.metrics_token ≢ []) × (presented header ≡ settings.metrics_token)
unfolding authorized
do_get-serve settings server path header started closed answered =
    let (nonempty, same) = token_of settings server started closed in
    let allowed = authorized_of server path header answered in
    let other : is_empty server.token ≡ false = ap is_empty same ∙ nonempty in
    let equal : text_eq (presented header) server.token ≡ true =
      rw (authorized, other) at allowed in
    (
      nonempty_text settings.metrics_token nonempty,
      eq_of_text_eq (presented header) server.token equal ∙ same,
    )
