-- ===== src/Tests/Web.antt =====
-- The web interface: signing in, forms and pages.
use dmarc_service.Base.{
  ℕ, ◌+◌, leb, length, ◌==◌, ◌-◌, ◌*◌, ◌≤◌, ◌<◌, ◌≡◌, ◌≢◌, ◌⊎◌, refl, false, [], ◌∷◌, some, none,
}
use dmarc_service.Base.Int.{pos, negsuc}
use dmarc_service.Base.Text.{Text, codes, text_eq}
use dmarc_service.Base.Exec.{ok, raised, http_exception}
use dmarc_service.Schema.{User, Db, empty_db}
use dmarc_service.Schema.Insert.{insert_user}
use dmarc_service.Resolver.{Answers, Resolver}
use dmarc_service.ControlPlane.Check.{World}
use dmarc_service.ControlPlane.Resolve.{
  text_of, texts_of, nameserver_addresses, authoritative_nameservers, txt_answers, resolve_txt,
}
use dmarc_service.Auth.Users.{admin_count, create_user, plain_email}
use dmarc_service.Ui.Pages.{per_page, page_count, pagination}
use dmarc_service.Ui.Windows.{pagination_lem}
use dmarc_service.Ui.Visit.{
  Visit, empty_session, redirect, current_user, login_redirect, in_session,
}
use dmarc_service.Ui.Entry.{setup, set_up}
use dmarc_service.Ui.View.Screen.{Reader}
use dmarc_service.Ui.Submit.{Outside, Form, submit, is_for_admins}
use dmarc_service.Ui.Guarded.{submit_signed_out, submit_not_admin}
use dmarc_service.Ui.Reached.{Reach, Step, reached_has_admin}
use dmarc_service.Tests.Samples.{sample, decoders, settings}
use dmarc_service.Tests.Mailbox.{server}

abbrev pub outside : Outside
outside = record {
  settings = settings;
  decoders = decoders;
  top_domain = λ name. [];
  hash = λ password. password;
  verify = λ h password. text_eq h password;
  digest = λ token. token;
  encrypt = ok;
  dial = λ account. server;
}

-- every question gets one answer, one millisecond later
abbrev answer : {A : Type 0} → A → ℕ → Answers A × ℕ
answer x now = (Answers.found (x ∷ []), now + 1)

abbrev dns : Resolver
dns = record {
  ns = λ servers name. answer (codes "ns.a.com.");
  mx = λ servers name. answer (codes "mx.a.com.");
  a = λ servers name. answer (codes "1.2.3.4");
  aaaa = λ servers name now. (Answers.failed, now + 1);
  txt = λ servers name. answer (codes "v=" ∷ codes "DMARC1" ∷ []);
  decode = some;
}

run_resolve_txt :
    resolve_txt dns (λ name. name) (codes "_dmarc.a.com") 0 ≡ (some (codes "v=DMARC1" ∷ []), 3)
unfolding resolve_txt authoritative_nameservers nameserver_addresses txt_answers texts_of text_of
run_resolve_txt = refl

-- addresses are numbers, and each network is one of them
abbrev pub browser : Reader
browser = record {
  Network = ℕ;
  Address = ℕ;
  settings = settings;
  link = λ page. page ∷ [];
  before = λ a b. leb (length a) (length b);
  percent = λ part whole. part;
  fromisoformat = λ day. some (length day);
  isoformat = λ day. codes "-";
  top_domain = λ name. [];
  resolver = dns;
  ip_address = λ ip. some (length ip);
  is_in = λ a n. a == n;
  ip_network = λ network. some (length network);
  expanded_at = λ domain now. now + 1;
  opened_at = 0;
  spf_cache = [];
  ptr = λ ip. some (codes "mail.a.com.");
  rdap = λ ip. none;
}

abbrev pub no_dns : World
no_dns = record { now = 0; cache = [] }

abbrev pub signed_out : Visit
signed_out = record { db = sample; session = empty_session; dns = no_dns }

submit_signed_out_example :
    submit outside (Form.delete_domain (codes "a.com")) signed_out
    ≡ (ok (redirect (codes "/setup")), signed_out)
unfolding login_redirect current_user
submit_signed_out_example =
    submit_signed_out outside (Form.delete_domain (codes "a.com")) signed_out refl

abbrev pub reader : User
reader = record { id = 9; email = codes "r"; password_hash = none; is_admin = false }

abbrev pub by_reader : Visit
by_reader = record {
  db = record sample { users = reader ∷ [] };
  session = record empty_session { user_id = some 9 };
  dns = no_dns;
}

submit_not_admin_example :
    submit outside (Form.role (codes "r") (codes "1")) by_reader
    ≡ (raised (http_exception 403 (codes "admin only")), by_reader)
unfolding is_for_admins current_user
submit_not_admin_example =
    submit_not_admin outside (Form.role (codes "r") (codes "1")) by_reader reader refl refl refl

abbrev pub installed_db : Db
installed_db =
    (setup outside.hash outside.verify (codes "a@b.c") (codes "password")
      (record { db = empty_db; session = empty_session; dns = no_dns })).1.db

some_user : installed_db.users ≢ []
unfolding setup set_up in_session create_user insert_user plain_email
some_user = λ e. cc

reached_has_admin_example : admin_count installed_db ≢ 0
reached_has_admin_example =
    reached_has_admin outside browser
      (Reach.next {session = empty_session} {dns = no_dns} Reach.empty
        (Step.installed (codes "a@b.c") (codes "password")))
      some_user

abbrev link : ℕ → Text
link page = page ∷ []

abbrev total : ℕ
total = 60

-- page 9 of a list with three pages
pagination_lem_example :
    let p = pagination link (pos 9) total in
    (1 ≤ p.page)
    × (p.page ≤ p.pages)
    × (p.offset ≡ (p.page - 1) * per_page)
    × (total ≤ p.pages * per_page)
    × ((p.offset < total) ⊎ (total ≡ 0))
pagination_lem_example = pagination_lem link (pos 9) total

run_pagination : (pagination link (pos 9) 60).page ≡ 3
unfolding pagination page_count
run_pagination = refl

run_pagination_below : (pagination link (negsuc 4) 60).page ≡ 1
unfolding pagination page_count
run_pagination_below = refl
