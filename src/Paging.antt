-- ===== src/Paging.antt =====
-- internal/storageopt/pagination.go, which xmongo and xclickhouse page with; on int64.
pub mod Bounds
mod Examples
use xkit.Prelude.{
  ℕ, ◌+◌, ◌-◌, ◌%◌, Bool, ◌||◌, ℤ, pos, negsuc, leb_ℤ, ltb_ℤ, pos_part, add_64, sub_64, mul_64,
  div_64, max_int64, if◌then◌else◌, Result, ok, err,
}

pub data Error : Type 0 where
  invalid_page invalid_page_size page_overflow : Error

unfoldable pub validate_pagination : ℤ → ℤ → Result Error ℤ
unfolding sub_64 mul_64 div_64
validate_pagination page page_size =
    if ltb_ℤ page (pos 1)
    then err invalid_page
    else if ltb_ℤ page_size (pos 1)
    then err invalid_page_size
    else if ltb_ℤ (div_64 max_int64 page_size) (sub_64 page (pos 1))
    then err page_overflow
    else ok (mul_64 (sub_64 page (pos 1)) page_size)

-- `total % pageSize`, of numbers above 0.
abbrev pub mod_64 : ℤ → ℤ → ℤ
mod_64 a c = pos (pos_part a % pos_part c)

unfoldable pub calculate_total_pages : ℤ → ℤ → ℤ
unfolding div_64 add_64
calculate_total_pages total page_size =
    if leb_ℤ total (pos 0) || leb_ℤ page_size (pos 0)
    then pos 0
    else let total_pages = div_64 total page_size in
      if ltb_ℤ (pos 0) (mod_64 total page_size) then add_64 total_pages (pos 1) else total_pages
