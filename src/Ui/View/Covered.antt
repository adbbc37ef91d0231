-- ===== src/Ui/View/Covered.antt =====
-- What the pages of a listing show together.
use dmarc_service.Base.{
  ℕ, zero, suc, ◌<◌, false, ◌≡◌, refl, sym, ap, ◌∙◌, Bool, true, List, [], ◌∷◌, ◌++◌, some, map,
  find, length, ◌==◌, arith,
}
use mathlib.Core.List.{Perm, map-append}
use mathlib.Core.List.Perm
use mathlib.Core.Path.{subst}
use dmarc_service.Base.Int.{ℤ, pos, negsuc, leb_ℤ}
use dmarc_service.Base.Order.{ordered-perm, length-ordered, IsOrdered, ordered-IsOrdered}
use dmarc_service.Base.Rows.{All}
use dmarc_service.Base.Text.{Text}
use dmarc_service.Base.Exec.{ok}
use dmarc_service.Schema.{User, AggregateRecord, AggregateReport, Db}
use dmarc_service.Reports.Rows.{ReportRow}
use dmarc_service.Ui.Pages.{page_count, pagination, window, page_slice}
use dmarc_service.Ui.Windows.{slices, page_slice_covers}
use dmarc_service.Ui.Visit.{Visit, current_user}
use dmarc_service.Ui.View.Guard.{shown}
use dmarc_service.Ui.View.Report.{
  by_count, RecordRow, record_row, ReportPage, report_shown, looked_up, show_report, report_page,
}
use dmarc_service.Ui.View.Screen.{lookup_of, networks_of, Reader, Screen, of_report, view, tag}
use dmarc_service.Ui.View.Private.{for_user_ok}

-- what the pages hold from one on, as many as the second number says
abbrev pub pages_from : {A : Type 0} → (ℕ → List A) → ℕ → ℕ → List A
pages_from page first zero = []
pages_from page first (suc k) = page first ++ pages_from page (suc first) k

module _ {A B : Type 0} (link : ℕ → Text) (f : A → B) (items : List A) where
  abbrev mapped_slice : ℕ → List B
  mapped_slice n = map f (page_slice link (pos n) items)

  pages_from-map :
      (first k : ℕ) → pages_from mapped_slice first k ≡ map f (slices link items first k)
  pages_from-map first zero = refl
  pages_from-map first (suc k) =
      ap (λ ys. mapped_slice first ++ ys) (pages_from-map (suc first) k)
      ∙ sym (map-append f (page_slice link (pos first) items) (slices link items (suc first) k))

  -- the pages of a listing, whose length the query counts
  pub windows_cover :
      (total : ℕ)
      → length items ≡ total
      → pages_from
          (λ n. map f (window link (pagination link (pos n) total) items))
          1
          (page_count total)
        ≡ map f items
  unfolding page_slice
  windows_cover total e =
      let covers : pages_from mapped_slice 1 (page_count (length items)) ≡ map f items =
        pages_from-map 1 (page_count (length items)) ∙ ap (map f) (page_slice_covers link items) in
      subst
        (λ m.
          pages_from (λ n. map f (window link (pagination link (pos n) m) items)) 1 (page_count m)
          ≡ map f items)
        e covers

IsOrdered-map {κ} :
    {A B : Type 0} (R : B → B → Type κ) (f : A → B) (xs : List A)
    → IsOrdered (λ x y. R (f x) (f y)) xs
    → IsOrdered R (map f xs)
IsOrdered-map R f [] h = tt
IsOrdered-map {A} R f (x ∷ xs) h = (below xs h.0, IsOrdered-map R f xs h.1)
  where
    below : (ys : List A) → All (λ y. R (f x) (f y)) ys → All (R (f x)) (map f ys)
    below [] k = tt
    below (y ∷ ys) k = (k.0, below ys k.1)

-- two reports whose order a query by the end of the period leaves open
abbrev pub ended_together : AggregateReport → AggregateReport → Bool
ended_together a b = a.date_end == b.date_end

-- Each report ended later than all that come after it.
abbrev EndedLater : AggregateReport → AggregateReport → Type 0
EndedLater a b = b.date_end < a.date_end

-- No two rows are of one time, and a later one comes first: there is one such order.
abbrev pub IsStrictlyLatestFirst : List ReportRow → Type 0
IsStrictlyLatestFirst = IsOrdered (λ a b. b.date_end < a.date_end)

-- No row comes before one of more messages.
abbrev pub IsLargestFirst : List RecordRow → Type 0
IsLargestFirst = IsOrdered (λ a b. leb_ℤ b.count a.count ≡ true)

leb_ℤ_total : (a b : ℤ) → leb_ℤ a b ≡ false → leb_ℤ b a ≡ true
leb_ℤ_total (pos m) (pos n) e = ground arith
leb_ℤ_total (pos m) (negsuc n) e = refl
leb_ℤ_total (negsuc m) (pos n) e = cc
leb_ℤ_total (negsuc m) (negsuc n) e = ground arith

leb_ℤ_trans : (a b c : ℤ) → leb_ℤ a b ≡ true → leb_ℤ b c ≡ true → leb_ℤ a c ≡ true
leb_ℤ_trans (pos m) (pos n) (pos k) h l = ground arith
leb_ℤ_trans (pos m) (pos n) (negsuc k) h l = cc
leb_ℤ_trans (pos m) (negsuc n) c h l = cc
leb_ℤ_trans (negsuc m) b (pos k) h l = refl
leb_ℤ_trans (negsuc m) (pos n) (negsuc k) h l = cc
leb_ℤ_trans (negsuc m) (negsuc n) (negsuc k) h l = ground arith

by_count_lem :
    (rs : List AggregateRecord)
    → Perm (by_count rs) rs
      × (length (by_count rs) ≡ length rs)
      × IsOrdered (λ (a b : AggregateRecord). leb_ℤ b.count a.count ≡ true) (by_count rs)
unfolding by_count
by_count_lem rs = (
  ordered-perm _ rs,
  length-ordered _ rs,
  ordered-IsOrdered (λ (a b : AggregateRecord). leb_ℤ b.count a.count) (λ a b e. e)
      (λ a b e. leb_ℤ_total b.count a.count e)
      (λ a b c h l. leb_ℤ_trans c.count b.count a.count l h) rs,
)

row_order :
    (r : Reader) (db : Db) (policy_domain : Text) (rs : List AggregateRecord)
    → IsOrdered (λ (a b : AggregateRecord). leb_ℤ b.count a.count ≡ true) rs
    → IsLargestFirst (
        map
          (record_row r.ip_address r.is_in (networks_of r) (lookup_of r) r.link db policy_domain)
          rs)
unfolding record_row
row_order r db policy_domain rs h =
    IsOrdered-map (λ (a b : RecordRow). leb_ℤ b.count a.count ≡ true)
      (record_row r.ip_address r.is_in (networks_of r) (lookup_of r) r.link db policy_domain) rs h

-- For a signed-in user the page of a report that is stored is shown, whatever page of it is asked for,
-- and nothing changes but what is known of addresses. The pages from the first to the last, one after
-- the other, hold a row for each record of the report, once and no other, and no row comes before one of
-- more messages.
pub report_page_lem :
    (r : Reader) (report_id : ℕ) (v : Visit) (user : User) (report : AggregateReport)
    → current_user v ≡ some user
    → find (λ (q : AggregateReport). q.id == report_id) v.db.aggregate_reports ≡ some report
    → let db = looked_up r.ip_address r.is_in (networks_of r) (lookup_of r) r.link report v.db in
      let p : ℕ → ReportPage = λ n.
        report_shown r.ip_address r.is_in (networks_of r) (lookup_of r) r.link report (pos n) db in
      let rows = pages_from (λ n. (p n).records) 1 (p 1).pages.pages in
      ((n : ℕ)
        → view r (Screen.report report_id (pos n)) v
          ≡ (ok (shown (of_report (p n))), record v { db = db }))
      × Perm rows (
          map
            (record_row r.ip_address r.is_in
              (networks_of r)
              (lookup_of r)
              r.link
              db
              report.policy_domain)
            report.records)
      × IsLargestFirst rows
unfolding view report_page show_report report_shown
report_page_lem r report_id v user report e found =
    let db = looked_up r.ip_address r.is_in (networks_of r) (lookup_of r) r.link report v.db in
    let p : ℕ → ReportPage = λ n.
      report_shown r.ip_address r.is_in (networks_of r) (lookup_of r) r.link report (pos n) db in
    let row =
      record_row r.ip_address r.is_in (networks_of r) (lookup_of r) r.link db
        report.policy_domain in
    let (perm, size, order) = by_count_lem report.records in
    let records = by_count report.records in
    let same = windows_cover r.link row records (length records) refl in
    (
      λ n.
          ap (λ m. tag of_report (λ w. m) v)
            (for_user_ok _ v user (shown (p n)) (record v { db = db }) e
              (ap
                (λ o.
                  show_report r.ip_address r.is_in (networks_of r) (lookup_of r) r.link o (pos n) v)
                found)),
      subst (λ rows. Perm rows (map row report.records)) (sym same) (Perm.map row perm),
      subst IsLargestFirst (sym same) (row_order r db report.policy_domain records order),
    )
