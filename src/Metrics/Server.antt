-- ===== src/Metrics/Server.antt =====
-- `MetricsServer`, its handler and `serve` of metrics.py: who may read the metrics.
use dmarc_service.Base.{ℕ, Bool, not, ◌&&◌, ◌||◌, Option, none, some, if◌then◌else◌}
use dmarc_service.Base.Text.{Text, codes, is_empty, text_eq, strip, remove_prefix, before}
use dmarc_service.Base.Exec.{Result, ok, raised, other}
use dmarc_service.Config.{Settings}

-- the server knows the token that it was started with
pub record MetricsServer : Type 0 where
  pub token : Text

abbrev pub presented : Text → Text
presented header = strip (remove_prefix header (codes "Bearer "))

unfoldable pub authorized : MetricsServer → Text → Bool
unfolding text_eq strip remove_prefix
authorized server header = is_empty server.token || text_eq (presented header) server.token

-- the status of the response to a GET
unfoldable pub do_get : MetricsServer → Text → Text → ℕ
unfolding authorized before text_eq
do_get server path header =
    let file = before b'?' path in
    if not (text_eq file (codes "/metrics") || text_eq file (codes "/"))
    then 404
    else if not (authorized server header)
    then 401
    else 200

unfoldable pub serve : Settings → Result (Option MetricsServer)
serve settings =
    if not settings.metrics_enabled
    then ok none
    else if is_empty settings.metrics_token && not settings.metrics_allow_unauthenticated
    then raised (other (codes "METRICS_ENABLED is set but METRICS_TOKEN is empty."))
    else ok (some (record { token = settings.metrics_token }))
