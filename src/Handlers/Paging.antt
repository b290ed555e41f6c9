-- ===== src/Handlers/Paging.antt =====
-- src/handlers/logs.rs: the page that `list_proxy_logs` serves.
use ait.Base.{ℕ, ◌+◌, ◌-◌, ◌*◌, ◌/◌, ◌≤◌, ◌≡◌, min, max, Option, none, some, arith}
use native.Mathlib.Nat.{div-mul-le_self}
use ait.Cache.{saturating_mul}

abbrev pub max_per_page : ℕ
max_per_page = 100

abbrev pub max_offset_rows : ℕ
max_offset_rows = 100_000

abbrev pub clamp : ℕ → ℕ → ℕ → ℕ
clamp n low high = min (max n low) high

abbrev pub default_to : ℕ → Option ℕ → ℕ
default_to d none = d
default_to d (some n) = n

unfoldable pub per_page_of : Option ℕ → ℕ
per_page_of per_page = clamp (default_to 20 per_page) 1 max_per_page

unfoldable pub offset_of : Option ℕ → ℕ → ℕ
offset_of page per_page =
    min (saturating_mul (max (default_to 1 page) 1 - 1) per_page) max_offset_rows

unfoldable pub page_of : Option ℕ → Option ℕ → ℕ
page_of page per_page = offset_of page (per_page_of per_page) / per_page_of per_page + 1

per_page-bounds : (per_page : Option ℕ) → (1 ≤ per_page_of per_page) × (per_page_of per_page ≤ 100)
unfolding per_page_of
per_page-bounds none = (omega arith, omega arith)
per_page-bounds (some n) = (omega arith, omega arith)

-- The page that is served has 1 to 100 rows and is at least 1, and at most 100000 rows lie in front of
-- it, whatever page is asked for.
pub page_of-le :
    (page per_page : Option ℕ)
    → (1 ≤ per_page_of per_page)
      × (per_page_of per_page ≤ 100)
      × (1 ≤ page_of page per_page)
      × ((page_of page per_page - 1) * per_page_of per_page ≤ 100_000)
unfolding page_of offset_of
page_of-le page per_page =
    let (low, high) = per_page-bounds per_page in
    let offset = offset_of page (per_page_of per_page) in
    let same : offset / per_page_of per_page + 1 - 1 ≡ offset / per_page_of per_page =
      omega arith in
    let capped : offset ≤ 100_000 = omega arith in
    (
      low,
      high,
      omega arith,
      rw same (omega (arith, capped, div-mul-le_self offset (per_page_of per_page))),
    )
