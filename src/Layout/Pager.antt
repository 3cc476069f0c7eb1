-- ===== src/Layout/Pager.antt =====
-- The window of pages that the pager shows:
-- packages/frontend/admin/src/app/core/services/ui/pagination.service.ts.
use express_nest_blueprint.Base.{
  ℕ, suc, ◌+◌, ◌-◌, ◌≤◌, ◌<◌, max, min, leb, ◌==◌, List, ◌≡◌, if◌then◌else◌, if_cases, refl, ap,
  arith,
}
use express_nest_blueprint.Layout.{numbers_from, first_page, window, generate_page_numbers}

-- A run of pages of the given length, that begins at the first page or later, ends at the last or
-- before, and has the current one.
abbrev pub IsWindow : ℕ → ℕ → List ℕ → Type 0
IsWindow current total pages =
    (first : ℕ) × (pages ≡ numbers_from first (min total 5))
    × (1 ≤ first)
    × (first + min total 5 ≤ suc total)
    × (first ≤ current)
    × (current < first + min total 5)

-- The same of its numbers.
abbrev Fits : ℕ → ℕ → ℕ → ℕ → Type 0
Fits current total end first =
    (end - first + 1 ≡ min total 5)
    × (1 ≤ first)
    × (first + min total 5 ≤ suc total)
    × (first ≤ current)
    × (current < first + min total 5)

first-Fits :
    (current total start end : ℕ)
    → 1 ≤ current
    → current ≤ total
    → 5 < total
    → start ≡ max 1 (current - 2)
    → end ≡ min total (start + 4)
    → Fits current total end (if end == total then max 1 (total - 4) else start)
first-Fits current total start end low high many s e =
    if_cases (Fits current total end) (end == total) _ _
      (λ b. (
        ground (arith, b),
        ground (arith, b),
        ground (arith, b),
        ground (arith, b),
        ground (arith, b),
      ))
      (λ b. (
        ground (arith, b),
        ground (arith, b),
        ground (arith, b),
        ground (arith, b),
        ground (arith, b),
      ))

window-IsWindow :
    (current total : ℕ)
    → 1 ≤ current
    → current ≤ total
    → 5 < total
    → IsWindow current total
        (window total (first_page current) (min total (first_page current + 4)))
unfolding window first_page
window-IsWindow current total low high many =
    let start = max 1 (current - 2) in
    let end = min total (start + 4) in
    let first = if end == total then max 1 (total - 4) else start in
    let f = first-Fits current total start end low high many refl refl in
    (first, ap (numbers_from first) f.0, f.1, f.2, f.3, f.4)

few-IsWindow :
    (current total : ℕ)
    → 1 ≤ current
    → current ≤ total
    → total ≤ 5
    → IsWindow current total (numbers_from 1 total)
few-IsWindow current total low high few =
    (1, ap (numbers_from 1) (omega arith), omega arith, omega arith, low, omega arith)

-- For a current page among the pages, the pager shows five pages in a row, or all where there are not
-- more, that lie between the first and the last page and have the current one among them.
pub generate_page_numbers-IsWindow :
    (current total : ℕ)
    → 1 ≤ current
    → current ≤ total
    → IsWindow current total (generate_page_numbers current total)
unfolding generate_page_numbers
generate_page_numbers-IsWindow current total low high =
    if_cases (IsWindow current total) (leb total 5) _ _
      (λ few. few-IsWindow current total low high (ground (arith, few)))
      (λ many. window-IsWindow current total low high (ground (arith, many)))
