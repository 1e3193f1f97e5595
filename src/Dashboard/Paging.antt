-- ===== src/Dashboard/Paging.antt =====
-- The pages of frontend/src/features/containers/components/containers-dashboard.tsx. The page and
-- its size come from the URL, so they may be any integers.
pub mod Laws
use vps_monitor.Common.{
  ℕ, zero, suc, ◌+◌, ◌-◌, ◌/◌, min, ℤ, pos, negsuc, sub_ℕ, ◌+ℤ◌, ◌-ℤ◌, ◌*ℤ◌, max_ℤ, min_ℤ, ltb_ℤ,
  List, [], ◌∷◌, length, take, drop, ◌==◌, if◌then◌else◌,
}

-- A page count is Infinity for a page size of 0.
pub data PageCount : Type 0 where
  finite : ℤ → PageCount
  infinite : PageCount

-- Math.ceil(n / size).
ceil_div : ℕ → ℤ → PageCount
ceil_div n (pos zero) = infinite
ceil_div n (pos (suc k)) = finite (pos ((n + k) / suc k))
ceil_div n (negsuc k) = finite (sub_ℕ 0 (n / suc k))

unfoldable pub total_pages : ℕ → ℤ → PageCount
unfolding ceil_div
total_pages n size = if n == 0 then finite (pos 1) else ceil_div n size

-- The effect that moves a page beyond the last one; `setPage` leaves a page of at least 1 as it is.
unfoldable pub clamp_page : PageCount → ℤ → ℤ
clamp_page infinite page = page
clamp_page (finite total) page =
    let next = max_ℤ (pos 1) total in if ltb_ℤ next page then next else page

unfoldable pub start_index : ℕ → ℤ → ℤ → ℤ
start_index n page size = if n == 0 then pos 0 else (page -ℤ pos 1) *ℤ size +ℤ pos 1

unfoldable pub end_index : ℕ → ℤ → ℤ → ℤ
end_index n page size = if n == 0 then pos 0 else min_ℤ (page *ℤ size) (pos n)

-- A slice's bound: a negative one counts from the end.
abbrev slice_bound : ℕ → ℤ → ℕ
slice_bound n (pos i) = min i n
slice_bound n (negsuc i) = n - suc i

-- Array.prototype.slice.
unfoldable pub slice {ℓ} : {A : Type ℓ} → List A → ℤ → ℤ → List A
slice xs from to =
    let start = slice_bound (length xs) from in
    take (slice_bound (length xs) to - start) (drop start xs)

unfoldable pub page_items {ℓ} : {A : Type ℓ} → List A → ℤ → ℤ → List A
unfolding slice
page_items xs page size = let offset = (page -ℤ pos 1) *ℤ size in slice xs offset (offset +ℤ size)
