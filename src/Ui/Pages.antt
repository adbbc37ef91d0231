-- ===== src/Ui/Pages.antt =====
-- `_pagination` and `_page_slice` of api/ui.py. The address of a page, which keeps the filters of the
-- request, is made by urllib: a parameter.
use dmarc_service.Base.{
  ℕ, ◌+◌, ◌-◌, ◌*◌, ◌/◌, List, [], take, drop, length, ltb, leb, if◌then◌else◌,
}
use dmarc_service.Base.Int.{ℤ, pos, negsuc}
use dmarc_service.Base.Text.{Text}

abbrev pub per_page : ℕ
per_page = 25

pub record Pagination : Type 0 where
  pub page : ℕ
  pub pages : ℕ
  pub total : ℕ
  pub offset : ℕ
  pub prev : Text
  pub next : Text

-- max(1, -(-total // PER_PAGE))
unfoldable pub page_count : ℕ → ℕ
page_count total = let n = (total + 24) / per_page in if leb n 1 then 1 else n

-- min(max(page, 1), pages)
unfoldable pub clamp : ℤ → ℕ → ℕ
clamp (negsuc n) pages = if leb 1 pages then 1 else pages
clamp (pos n) pages =
    let wanted = if leb n 1 then 1 else n in if leb wanted pages then wanted else pages

module _ (link : ℕ → Text) where
  unfoldable pub pagination : ℤ → ℕ → Pagination
  unfolding page_count clamp
  pagination wanted total =
      let pages = page_count total in
      let page = clamp wanted pages in
      record {
        page = page;
        pages = pages;
        total = total;
        offset = (page - 1) * per_page;
        prev = if ltb 1 page then link (page - 1) else [];
        next = if ltb page pages then link (page + 1) else [];
      }

  module _ {ℓ} {A : Type ℓ} where
    -- items[offset:offset + PER_PAGE], also as the LIMIT and OFFSET of a query
    abbrev pub window : Pagination → List A → List A
    window p items = take per_page (drop p.offset items)

    unfoldable pub page_slice : ℤ → List A → List A
    unfolding pagination
    page_slice wanted items = window (pagination wanted (length items)) items
