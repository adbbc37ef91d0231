-- ===== src/Ui/Windows.antt =====
-- The pages of a list: within bounds, and together the whole list.
use dmarc_service.Base.{
  ℕ, zero, suc, ◌+◌, ◌-◌, ◌*◌, ◌/◌, ◌≤◌, ◌<◌, ◌≡◌, refl, ◌∙◌, ap, sym, List, [], ◌∷◌, ◌++◌, take,
  drop, length, leb, arith, Bool-cases, inl, inr, ◌⊎◌,
}
use dmarc_service.Base.Int.{ℤ, pos, negsuc}
use dmarc_service.Base.Text.{Text}
use dmarc_service.Ui.Pages.{per_page, page_count, clamp, pagination, page_slice}

-- There are as many pages as needed, and one where there is nothing.
page_count_lem :
    (total : ℕ)
    → let n = page_count total in
      (1 ≤ n) × (total ≤ n * per_page) × ((n ≡ 1) ⊎ ((n - 1) * per_page < total))
unfolding page_count
page_count_lem total = elim (Bool-cases (leb ((total + 24) / 25) 1)) [
  | inl one ↦ rw one (omega arith, ground arith, inl refl)
  | inr more ↦ rw more (ground arith, ground arith, inr (ground arith))
]

clamp_lem :
    (wanted : ℤ) (pages : ℕ) → 1 ≤ pages → (1 ≤ clamp wanted pages) × (clamp wanted pages ≤ pages)
unfolding clamp
clamp_lem (negsuc n) pages h = ground arith
clamp_lem (pos n) pages h = ground arith

-- Whatever page is asked for, also one below zero, the page that is shown is one of the pages; it
-- starts within the list, unless the list is empty; and the pages are enough for the whole list.
pub pagination_lem :
    (link : ℕ → Text) (wanted : ℤ) (total : ℕ)
    → let p = pagination link wanted total in
      (1 ≤ p.page)
      × (p.page ≤ p.pages)
      × (p.offset ≡ (p.page - 1) * per_page)
      × (total ≤ p.pages * per_page)
      × ((p.offset < total) ⊎ (total ≡ 0))
unfolding pagination
pagination_lem link wanted total =
    let (positive, enough, needed) = page_count_lem total in
    let (low, high) = clamp_lem wanted (page_count total) positive in
    (
      low,
      high,
      refl,
      enough,
      within (clamp wanted (page_count total)) (page_count total) low high needed,
    )
  where
    within :
        (page pages : ℕ)
        → 1 ≤ page
        → page ≤ pages
        → (pages ≡ 1) ⊎ ((pages - 1) * per_page < total)
        → ((page - 1) * per_page < total) ⊎ (total ≡ 0)
    within page pages low high (inl one) = elim (Bool-cases (leb 1 total)) [
      | inl some_rows ↦ inl (ground arith)
      | inr no_rows ↦ inr (ground arith)
    ]
    within page pages low high (inr needed) = inl (omega arith)

module _ {ℓ} {A : Type ℓ} where
  drop_nil : (k : ℕ) → drop {A = A} k [] ≡ []
  drop_nil zero = refl
  drop_nil (suc k) = refl

  drop-drop : (m n : ℕ) (xs : List A) → drop (m + n) xs ≡ drop n (drop m xs)
  drop-drop zero n xs = ap (λ k. drop k xs) (omega arith)
  drop-drop (suc m) n [] = drop_nil (suc m + n) ∙ sym (drop_nil n)
  drop-drop (suc m) n (x ∷ xs) =
      let step : suc m + n ≡ suc (m + n) = omega arith in
      ap (λ k. drop k (x ∷ xs)) step ∙ drop-drop m n xs

  take-drop : (n : ℕ) (xs : List A) → take n xs ++ drop n xs ≡ xs
  take-drop zero xs = refl
  take-drop (suc n) [] = refl
  take-drop (suc n) (x ∷ xs) = ap (λ ys. x ∷ ys) (take-drop n xs)

  drop_all : (n : ℕ) (xs : List A) → length xs ≤ n → drop n xs ≡ []
  drop_all zero [] h = refl
  drop_all zero (x ∷ xs) h = absurd (omega arith)
  drop_all (suc n) [] h = refl
  drop_all (suc n) (x ∷ xs) h = drop_all n xs (omega arith)

  module _ (link : ℕ → Text) (items : List A) where
    -- the pages from one on, as many as the second number says, one after the other
    abbrev pub slices : ℕ → ℕ → List A
    slices first zero = []
    slices first (suc k) = page_slice link (pos first) items ++ slices (suc first) k

    slice_at :
        (n : ℕ)
        → 1 ≤ n
        → n ≤ page_count (length items)
        → page_slice link (pos n) items ≡ take per_page (drop ((n - 1) * per_page) items)
    unfolding page_slice pagination clamp
    slice_at n low high =
        let same : clamp (pos n) (page_count (length items)) ≡ n = ground arith in
        ap (λ k. take per_page (drop ((k - 1) * per_page) items)) same

    slices_lem :
        (k n : ℕ)
        → 1 ≤ n
        → n + k ≡ suc (page_count (length items))
        → slices n k ≡ drop ((n - 1) * per_page) items
    slices_lem zero n low e =
        let (positive, enough, needed) = page_count_lem (length items) in
        sym (drop_all ((n - 1) * per_page) items (omega (arith, enough, e)))
    slices_lem (suc k) n low e =
        let offset = (n - 1) * per_page in
        let next : drop ((suc n - 1) * per_page) items ≡ drop per_page (drop offset items) =
          ap (λ m. drop m items) (omega arith) ∙ drop-drop offset per_page items in
        ap (λ ys. ys ++ slices (suc n) k) (slice_at n low (omega (arith, e)))
        ∙ ap (λ ys. take per_page (drop offset items) ++ ys)
            (slices_lem k (suc n) (omega arith) (omega (arith, e)) ∙ next)
        ∙ take-drop per_page (drop offset items)

    -- All pages, one after the other, are the whole list: no item is missing and none is on two pages.
    pub page_slice_covers : slices 1 (page_count (length items)) ≡ items
    page_slice_covers = slices_lem (page_count (length items)) 1 (omega arith) (omega arith)
