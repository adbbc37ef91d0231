-- ===== src/Smtp.antt =====
-- `ReportHandler` of smtp/server.py. The call of httpx that relays a message is a parameter.
use dmarc_service.Base.{List, [], ◌∷◌, ◌++◌, Option, none, some, ◌≡◌, refl}
use dmarc_service.Base.Text.{Text, Bytes, codes}
use dmarc_service.Base.Exec.{Exec, Result, ok, raised, pure, lift, attempt, ◌>>=◌}
use dmarc_service.Config.{Settings, SmtpMode}
use dmarc_service.Schema.{RawMessage, Db}
use dmarc_service.Schema.Session.{session_scope}
use dmarc_service.Parsers.Decoders.{Decoders}
use dmarc_service.Pipeline.Message.{process_message}

pub record Envelope : Type 0 where
  pub mail_from : Option Text
  pub rcpt_tos : List Text
  pub content : Option Bytes

unfoldable pub handle_rcpt : Text → Envelope → Text × Envelope
handle_rcpt address e = (codes "250 OK", record e { rcpt_tos = e.rcpt_tos ++ address ∷ [] })

abbrev pub or_empty : Option Text → Text
or_empty none = []
or_empty (some t) = t

abbrev pub first_recipient : List Text → Text
first_recipient [] = []
first_recipient (r ∷ _) = r

abbrev pub accepted : Text
accepted = codes "250 Message accepted for delivery"

abbrev pub try_again : Text
try_again = codes "451 Requested action aborted: local error in processing"

abbrev pub answer : {A : Type 0} → Result A → Text
answer (ok a) = accepted
answer (raised x) = try_again

module _ (dec : Decoders) where
  unfoldable pub store : Bytes → Text → Text → Text → Exec Db RawMessage
  unfolding session_scope process_message
  store content source_ip mail_from rcpt_to =
      session_scope (process_message dec content source_ip mail_from rcpt_to)

  -- `post` takes the url, the token, the content and the three headers of the relayed message
  module _ (post : Text → Text → Bytes → Text → Text → Text → Result (Unit {0})) where
    unfoldable pub forward : Settings → Bytes → Text → Text → Text → Result (Unit {0})
    forward settings content source_ip mail_from rcpt_to =
        post settings.smtp_forward_url settings.smtp_forward_token content source_ip mail_from
          rcpt_to

    unfoldable pub handle_data : Settings → Option Text → Envelope → Exec Db Text
    unfolding store forward
    handle_data settings peer e =
        let source_ip = or_empty peer in
        let rcpt_to = first_recipient e.rcpt_tos in
        let content = or_empty e.content in
        let mail_from = or_empty e.mail_from in
        elim settings.smtp_mode [
          | SmtpMode.forward ↦ do
            outcome ← attempt (lift (forward settings content source_ip mail_from rcpt_to))
            pure (answer outcome)
          | SmtpMode.direct ↦ do
            outcome ← attempt (store content source_ip mail_from rcpt_to)
            pure (answer outcome)
        ]

    -- In forward mode the sender is told to retry exactly where the relay failed, and the local
    -- database is not touched.
    pub handle_data_relays :
        (settings : Settings) (peer : Option Text) (e : Envelope) (db : Db)
        → settings.smtp_mode ≡ SmtpMode.forward
        → handle_data settings peer e db ≡ (
          ok (
              answer (
                forward settings
                  (or_empty e.content)
                  (or_empty peer)
                  (or_empty e.mail_from)
                  (first_recipient e.rcpt_tos))),
          db,
        )
    unfolding handle_data
    handle_data_relays settings peer e db relay = rw (handle_data, relay) refl
