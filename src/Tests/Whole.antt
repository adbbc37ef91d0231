-- ===== src/Tests/Whole.antt =====
-- The service from its first start on: an administrator, a message by mail, and a poll.
use dmarc_service.Base.{[], ◌+◌}
use dmarc_service.Base.Text.{codes}
use dmarc_service.Base.Exec.{ok}
use dmarc_service.Schema.{Db, empty_db}
use dmarc_service.Schema.Session.{session_scope}
use dmarc_service.Schema.Valid.{IsValid}
use dmarc_service.ControlPlane.Provision.{bootstrap}
use dmarc_service.Pipeline.Message.{process_message}
use dmarc_service.Imap.Poll.{fetch_all}
use dmarc_service.Ui.Visit.{empty_session}
use dmarc_service.Ui.Entry.{setup}
use dmarc_service.Ui.Reached
use dmarc_service.Service.{Reach, Step, Reach-IsValid}
use dmarc_service.Tests.Samples.{decoders, settings, xml_report}
use dmarc_service.Tests.Mailbox.{mail}
use dmarc_service.Tests.Web.{outside, browser, no_dns}

abbrev started_db : Db
started_db = (session_scope (bootstrap settings) empty_db).1

abbrev administered_db : Db
administered_db =
    (setup outside.hash outside.verify (codes "a@b.c") (codes "password")
      (record { db = started_db; session = empty_session; dns = no_dns })).1.db

abbrev delivered_db : Db
delivered_db =
    (session_scope (process_message decoders xml_report [] (codes "m") (codes "AA@d.net"))
      administered_db).1

Reach-IsValid_example :
    IsValid
      (fetch_all outside.dial mail decoders ok settings
        (record delivered_db { now = delivered_db.now + 60 })).1
Reach-IsValid_example = Reach-IsValid outside browser (
    Reach.next
      (Reach.next
        (Reach.next
          (Reach.next (Reach.next Reach.empty Step.started) (
            Step.visited {session = empty_session} {dns = no_dns}
              (Reached.Step.installed (codes "a@b.c") (codes "password"))))
          (Step.delivered xml_report [] (codes "m") (codes "AA@d.net")))
        (Step.waited 60))
      (Step.polled mail ok))
