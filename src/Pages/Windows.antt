-- ===== src/Pages/Windows.antt =====
-- What the pages of a table hold, of which the server answers each window: TransactionMethods, in
-- packages/backend/common/src/infrastructure/database/repository-extensions/transaction-methods.ts.
use Prim.Native.Nat.{◌%◌}
use native.Mathlib.Nat.{div-add-mod', mod-lt}
use express_nest_blueprint.Base.{
  ℕ, zero, suc, sym, ◌+◌, ◌*◌, ◌/◌, ◌≤◌, ◌<◌, ◌≡◌, refl, some, List, [], ◌++◌, length, arith, ap,
}
use express_nest_blueprint.Base.Int.{pos}
use express_nest_blueprint.Base.Slices.{take, drop, take-add, take_all}
use express_nest_blueprint.Query.Where.{QueryWithPaginationOptions}
use express_nest_blueprint.Base.Settled.{Settled, ok, throws}
use express_nest_blueprint.Pages.{
  Count, FindAll, FindPage, QueryPaginationOptionsResults, find_with_pagination, total_pages_of,
  paged, counted, offset_of,
}

ceil-bounds :
    (total limit : ℕ)
    → (total ≤ (total + limit) / suc limit * suc limit)
      × ((total + limit) / suc limit * suc limit < total + suc limit)
ceil-bounds total limit =
    let e = div-add-mod' (total + limit) (suc limit) in
    let b : (total + limit) % suc limit < suc limit = mod-lt (total + limit) (omega arith) in
    (omega (arith, e, b), omega (arith, e))

-- The number of pages is the number of rows by the limit, rounded up: the pages have room for all the
-- rows, and one page less has not.
pub total_pages_of-bounds :
    (total limit n : ℕ)
    → total_pages_of total limit ≡ some n
    → (total ≤ n * limit) × (n * limit < total + limit)
unfolding total_pages_of
total_pages_of-bounds total zero n h = ground arith
total_pages_of-bounds total (suc limit) n h =
    let e : (total + limit) / suc limit ≡ n = ground (h, arith) in
    rw (sym e) (ceil-bounds total limit)

-- The server has `rows` for the options, as many as it counts, and answers each window of them.
pub record IsServing {V T S : Type 0} (count : Count V S) (find_all : FindAll V T S)
    (options : QueryWithPaginationOptions V) (rows : List T) : Type 0 where
  pub counts : (s : S) → count options s ≡ (ok (length rows), s)
  pub finds :
      (limit offset : ℕ) (s : S)
      → find_all (record options { limit = some (pos limit); offset = some (pos offset) }) s
        ≡ (ok (take limit (drop offset rows)), s)

module _ {T S : Type 0} where
  -- The rows of one more page, after the others.
  add_page : List T → Settled (QueryPaginationOptionsResults T) × S → Settled (List T) × S
  add_page found (ok r, s) = (ok (found ++ r.rows), s)
  add_page found (throws e, s) = (throws e, s)

  next_page :
      (ℕ → S → Settled (QueryPaginationOptionsResults T) × S)
      → ℕ
      → Settled (List T) × S
      → Settled (List T) × S
  unfolding add_page
  next_page find page (ok found, s) = add_page found (find page s)
  next_page find page (throws e, s) = (throws e, s)

module _ {V T S : Type 0} where
  -- A client that asks for the first `n` pages in turn.
  unfoldable pub pages :
      FindPage V T S → QueryWithPaginationOptions V → ℕ → ℕ → S → Settled (List T) × S
  unfolding next_page
  pages find options limit zero s = (ok [], s)
  pages find options limit (suc n) s =
      next_page (λ page. find options page limit) (suc n) (pages find options limit n s)

module _ {V T S : Type 0} (count : Count V S) (find_all : FindAll V T S)
    (options : QueryWithPaginationOptions V) (rows : List T)
    (serves : IsServing count find_all options rows) where
  find_with_pagination_lem :
      (page limit : ℕ) (s : S)
      → find_with_pagination count find_all options (suc page) limit s ≡ (
        ok (record {
          rows = take limit (drop (page * limit) rows);
          total = length rows;
          page = suc page;
          limit = limit;
          total_pages = total_pages_of (length rows) limit;
        }),
        s,
      )
  unfolding find_with_pagination counted paged offset_of
  find_with_pagination_lem page limit s =
      rw (serves.counts s, serves.finds limit (page * limit) s) refl

  pages-take :
      (limit n : ℕ) (s : S)
      → pages (find_with_pagination count find_all) options limit n s
        ≡ (ok (take (n * limit) rows), s)
  unfolding pages next_page add_page take
  pages-take limit zero s = let e : 0 * limit ≡ 0 = omega arith in rw e refl
  pages-take limit (suc n) s =
      let e : n * limit + limit ≡ suc n * limit = omega arith in
      rw (pages-take limit n s, find_with_pagination_lem n limit s, sym e)
        (ap (λ xs. (ok xs, s)) (take-add (n * limit) limit rows))

-- A client that asks for as many pages as findWithPagination says there are has each row once, in the
-- table's order.
pub pages-total_pages :
    {V T S : Type 0} (count : Count V S) (find_all : FindAll V T S)
    (options : QueryWithPaginationOptions V) (rows : List T)
    → IsServing count find_all options rows
    → (limit n : ℕ) → total_pages_of (length rows) limit ≡ some n
    → (s : S) → pages (find_with_pagination count find_all) options limit n s ≡ (ok rows, s)
pages-total_pages count find_all options rows serves limit n h s =
    rw (pages-take count find_all options rows serves limit n s) (
      ap (λ xs. (ok xs, s))
        (take_all (n * limit) rows ((total_pages_of-bounds (length rows) limit n h).0)))
