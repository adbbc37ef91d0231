-- ===== src/Ui/View/Guard.antt =====
-- What the pages of api/ui.py begin with. An answer is a redirect, or what the template is given; what
-- `_ctx` adds to it (the host and the user) is left out.
use dmarc_service.Base.{none, some}
use dmarc_service.Base.Exec.{Exec, ok}
use dmarc_service.Schema.{User}
use dmarc_service.Ui.Visit.{Visit, Reply, current_user, login_redirect, in_session}

pub data Answer (A : Type 0) : Type 0 where
  sent : Reply → Answer A
  shown : A → Answer A

abbrev pub View : Type 0 → Type 0
View A = Exec Visit (Answer A)

-- with session_scope() as db: user = ...; if user is None: return _login_redirect(db)
unfoldable pub for_user : {A : Type 0} → (User → View A) → View A
unfolding in_session current_user login_redirect
for_user page = in_session (λ v. elim (current_user v) [
  | none ↦ (ok (sent (login_redirect v.db)), v)
  | some user ↦ page user v
])
