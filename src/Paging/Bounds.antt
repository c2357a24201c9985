-- ===== src/Paging/Bounds.antt =====
-- pagination.go: the offset of a page and the number of pages, without wrap-around.
use native.Mathlib.Nat.{div-add-mod', mod-lt, mul_comm, mul-le-mul_right}
use xkit.Prelude.{
  ◌==◌, ℕ, ◌+◌, ◌-◌, ◌*◌, ◌/◌, ◌%◌, ◌^◌, ◌<◌, ◌≤◌, ◌≡◌, refl, sym, ap, ◌∙◌, Bool-cases, inl, inr,
  false, ltb, ℤ, pos, negsuc, ltb_ℤ, pos_part, ◌≤ℤ◌, mul_64, div_64, max_int64, pos_part-bound,
  add_64-pos, sub_64-pos, mul_64-pos, quotient_fits, quotient_exceeded, if◌then◌else◌, Result, ok,
  err, arith,
}
use xkit.Paging.{
  Error, invalid_page, invalid_page_size, page_overflow, validate_pagination, calculate_total_pages,
}

-- The offset of a page in exact arithmetic, where it is an int64.
abbrev pub offset_of : ℕ → ℕ → Result Error ℤ
offset_of page size =
    if ltb (pos_part max_int64) (size * (page - 1))
    then err page_overflow
    else ok (pos (size * (page - 1)))

mul_64-offset :
    (page size : ℕ)
    → page < 2 ^ 63
    → size < 2 ^ 63
    → size * (page - 1) < 2 ^ 63
    → mul_64 (pos (page - 1)) (pos size) ≡ pos (size * (page - 1))
mul_64-offset page size p s h =
    mul_64-pos (page - 1) size (omega arith) s (omega (arith, mul_comm size (page - 1)))
    ∙ ap pos (mul_comm (page - 1) size)

module _ (page size : ℕ) (p : page < 2 ^ 63) (s : size < 2 ^ 63) (first : 0 < page)
    (positive : 0 < size) where
  validate_pagination-natural : validate_pagination (pos page) (pos size) ≡ offset_of page size
  unfolding validate_pagination div_64
  validate_pagination-natural = elim (Bool-cases (ltb (pos_part max_int64 / size) (page - 1))) [
    | inl past ↦ rw (sub_64-pos page 1 first p) (
        ground
          (arith, quotient_exceeded (page - 1) (pos_part max_int64) size positive (ground arith)))
    | inr within ↦
        let fits = quotient_fits (page - 1) (pos_part max_int64) size positive (ground arith) in
        rw (sub_64-pos page 1 first p, mul_64-offset page size p s (omega (arith, fits)))
          (ground (arith, fits))
  ]

unfoldable pub exact_offset : ℤ → ℤ → Result Error ℤ
exact_offset page size =
    if ltb_ℤ page (pos 1)
    then err invalid_page
    else if ltb_ℤ size (pos 1)
    then err invalid_page_size
    else offset_of (pos_part page) (pos_part size)

exact_offset-offset_of :
    (page size : ℤ)
    → ltb_ℤ page (pos 1) ≡ false
    → ltb_ℤ size (pos 1) ≡ false
    → exact_offset page size ≡ offset_of (pos_part page) (pos_part size)
unfolding exact_offset
exact_offset-offset_of page size h g = rw (h, g) refl

positive_natural : (z : ℤ) → ltb_ℤ z (pos 1) ≡ false → (z ≡ pos (pos_part z)) × (0 < pos_part z)
positive_natural (pos n) h = (refl, ground arith)
positive_natural (negsuc n) h = absurd (ground arith)

-- ValidatePagination answers in int64 as in exact arithmetic: an error for a page or a size below 1,
-- an overflow exactly where `(page - 1) * pageSize` is above the greatest int64, and else that number.
pub validate_pagination-exact_offset :
    (page size : ℤ)
    → page ≤ℤ max_int64
    → size ≤ℤ max_int64
    → validate_pagination page size ≡ exact_offset page size
unfolding validate_pagination exact_offset
validate_pagination-exact_offset page size p s = elim (Bool-cases (ltb_ℤ page (pos 1))) [
  | inl h ↦ rw h refl
  | inr h ↦ elim (Bool-cases (ltb_ℤ size (pos 1))) [
    | inl g ↦ rw (h, g) refl
    | inr g ↦
        let (page_is, first) = positive_natural page h in
        let (size_is, positive) = positive_natural size g in
        ap (λ (z : ℤ). validate_pagination z size) page_is
        ∙ ap (validate_pagination (pos (pos_part page))) size_is
        ∙ validate_pagination-natural (pos_part page) (pos_part size) (pos_part-bound page p)
            (pos_part-bound size s) first positive
        ∙ sym (exact_offset-offset_of page size h g)
  ]
]

succ_le_one : {n : ℕ} → 0 < n → 1 ≤ n
succ_le_one h = omega arith

-- The number of pages, before its sum on int64.
abbrev pages : ℕ → ℕ → ℕ
pages total size = total / size + (if ltb 0 (total % size) then 1 else 0)

module _ (total size : ℕ) (t : total < 2 ^ 63) (positive : 0 < size) where
  pages_cover : (total ≤ size * pages total size) × (size * pages total size < total + size)
  pages_cover = elim (Bool-cases (ltb 0 (total % size))) [
    | inl some_left ↦ rw some_left (
      omega (arith, div-add-mod' total size, mod-lt total positive),
      ground (arith, div-add-mod' total size, mod-lt total positive),
    )
    | inr none_left ↦ rw none_left (
      ground (arith, div-add-mod' total size, mod-lt total positive),
      ground (arith, div-add-mod' total size, mod-lt total positive),
    )
  ]

  calculate_total_pages-pages :
      0 < total → calculate_total_pages (pos total) (pos size) ≡ pos (pages total size)
  unfolding calculate_total_pages div_64
  calculate_total_pages-pages some_records = elim (Bool-cases (ltb 0 (total % size))) [
    | inl some_left ↦
        let room : total / size + 1 < 2 ^ 63 = ground (
          arith,
          div-add-mod' total size,
          mul-le-mul_right (total / size) (succ_le_one positive),
        ) in
        rw some_left (ground (arith, add_64-pos (total / size) 1 room))
    | inr none_left ↦ rw none_left (ground arith)
  ]

module _ (total size : ℕ) (t : total < 2 ^ 63) (s : size < 2 ^ 63) (some_records : 0 < total)
    (positive : 0 < size) where
  last : ℕ
  last = pages total size - 1

  pages-last : pages total size ≡ last + 1
  unfolding last
  pages-last = elim (Bool-cases (pages total size == 0)) [
    | inl none_at_all ↦
        let empty : pages total size ≡ 0 = ground arith in
        absurd
          (omega (arith, (pages_cover total size t positive).0, ap (λ (n : ℕ). size * n) empty))
    | inr some_page ↦ ground arith
  ]

  last_cover : (size * last < total) × (total ≤ size * last + size)
  last_cover =
      let (above, below) = pages_cover total size t positive in
      let split : size * pages total size ≡ size * last + size =
        ap (λ (n : ℕ). size * n) pages-last ∙ omega arith in
      (omega (arith, above, below, split), omega (arith, above, split))

  -- The last of CalculateTotalPages' pages has an offset, which is below the number of records, and
  -- with its size it reaches that number: each record is on a page, and no page is empty.
  pub last_page_covers :
      (offset : ℕ) × (validate_pagination (calculate_total_pages (pos total) (pos size)) (pos size)
        ≡ ok (pos offset))
      × (offset < total)
      × (total ≤ offset + size)
  last_page_covers =
      let (below, above) = last_cover in
      let least : last ≤ size * last =
        omega (arith, mul-le-mul_right last (succ_le_one positive), mul_comm size last) in
      let page : validate_pagination (pos (last + 1)) (pos size) ≡ offset_of (last + 1) size =
        validate_pagination-natural (last + 1) size (omega (arith, least, below)) s (omega arith)
          positive in
      let fits : offset_of (last + 1) size ≡ ok (pos (size * last)) = ground (arith, below) in
      (
        size * last,
        ap (λ (z : ℤ). validate_pagination z (pos size))
              (calculate_total_pages-pages total size t positive some_records ∙ ap pos pages-last)
            ∙ page
            ∙ fits,
        below,
        above,
      )
