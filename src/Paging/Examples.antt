-- ===== src/Paging/Examples.antt =====
-- Ten records on pages of four; and a page that is too far away.
use xkit.Prelude.{ℕ, ◌+◌, ◌≤◌, ◌<◌, ◌≡◌, refl, pos, ok, err, arith}
use xkit.Paging.{page_overflow, validate_pagination, calculate_total_pages}
use xkit.Paging.Bounds.{exact_offset, validate_pagination-exact_offset, last_page_covers}

validate_pagination-exact_offset_example :
    validate_pagination (pos 4611686018427387905) (pos 4)
    ≡ exact_offset (pos 4611686018427387905) (pos 4)
validate_pagination-exact_offset_example =
    validate_pagination-exact_offset (pos 4611686018427387905) (pos 4) (omega arith) (omega arith)

last_page_covers_example :
    (offset : ℕ) × (validate_pagination (calculate_total_pages (pos 10) (pos 4)) (pos 4)
      ≡ ok (pos offset))
    × (offset < 10)
    × (10 ≤ offset + 4)
last_page_covers_example =
    last_page_covers 10 4 (omega arith) (omega arith) (omega arith) (omega arith)

last_page : calculate_total_pages (pos 10) (pos 4) ≡ pos 3
unfolding calculate_total_pages
last_page = refl

too_far : validate_pagination (pos 4611686018427387905) (pos 4) ≡ err page_overflow
unfolding validate_pagination
too_far = refl
