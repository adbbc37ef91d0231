-- ===== src/Schema/Session.antt =====
-- `session_scope` of db/session.py: what the block wrote is committed when it ends, and rolled
-- back when it raises.
use dmarc_service.Base.{◌≡◌, ap}
use dmarc_service.Base.Exec.{Exc, Result, ok, raised, Exec}
use dmarc_service.Schema.{Db}

abbrev finish : {A : Type 0} → Db → Result A × Db → Result A × Db
finish before (ok a, db) = (ok a, db)
finish before (raised e, db) = (raised e, before)

unfoldable pub session_scope : {A : Type 0} → Exec Db A → Exec Db A
session_scope block db = finish db (block db)

-- A rolled back session leaves the database that it found.
pub session_scope-keeps {ℓ} :
    {A : Type 0} (P : Db → Type ℓ) (block : Exec Db A) (db : Db)
    → P db
    → P (block db).1
    → P (session_scope block db).1
unfolding session_scope
session_scope-keeps {A = A} P block db before after = ended (block db) after
  where
    ended : (r : Result A × Db) → P r.1 → P (finish db r).1
    ended (ok a, d) h = h
    ended (raised x, d) h = before

-- A block that returns is committed.
pub session_scope-ok :
    {A : Type 0} (block : Exec Db A) (db : Db) {a : A}
    → (block db).0 ≡ ok a
    → session_scope block db ≡ (ok a, (block db).1)
unfolding session_scope
session_scope-ok {A = A} block db {a} e = ended (block db) e
  where
    ended : (r : Result A × Db) → r.0 ≡ ok a → finish db r ≡ (ok a, r.1)
    ended (ok b, d) h = ap (λ x. (x, d)) h
    ended (raised x, d) h = cc

-- A block that raises is rolled back.
pub session_scope-raised :
    {A : Type 0} (block : Exec Db A) (db : Db) {x : Exc}
    → (block db).0 ≡ raised x
    → session_scope block db ≡ (raised x, db)
unfolding session_scope
session_scope-raised {A = A} block db {x} e = ended (block db) e
  where
    ended : (r : Result A × Db) → r.0 ≡ raised x → finish db r ≡ (raised x, db)
    ended (ok b, d) h = cc
    ended (raised y, d) h = ap (λ z. (z, db)) h
