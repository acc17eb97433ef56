-- ===== src/Admin/Listings/Page.antt =====
-- How many services one answer of a listing may have.
use masterportal_admin.Base.{
  ℕ, zero, suc, ◌-◌, ◌≤◌, ltb, List, [], ◌∷◌, length, arith, Bool-cases, inl, inr,
}
use masterportal_admin.Base.Int.{ℤ, pos, negsuc}
use masterportal_admin.Db.{Service}
use masterportal_admin.Admin.Listings.{place, take, drop, slice, sum_of, page}

length-take {ℓ} : {A : Type ℓ} (n : ℕ) (xs : List A) → length (take n xs) ≤ n
length-take zero xs = omega arith
length-take (suc n) [] = omega arith
length-take (suc n) (x ∷ xs) = omega (arith, length-take n xs)

-- The window of a slice whose end is `size` behind its start.
place_window : (n size : ℕ) (a : ℤ) → place n (sum_of a (pos size)) - place n a ≤ size
place_window n size (pos i) = ground arith
place_window n size (negsuc i) = ground arith

length-slice :
    (offset : ℤ) (size : ℕ) (rows : List Service)
    → length (slice offset (sum_of offset (pos size)) rows) ≤ size
unfolding slice
length-slice offset size rows = omega (
  arith,
  place_window (length rows) size offset,
  length-take (place (length rows) (sum_of offset (pos size)) - place (length rows) offset)
      (drop (place (length rows) offset) rows),
)

-- Whatever the offset, also a negative one, a page of a limit that is not negative has at most 200
-- rows, and at most as many as the limit.
pub page_bound :
    (offset : ℤ) (limit : ℕ) (rows : List Service)
    → (length (page offset (pos limit) rows) ≤ 200)
      × (length (page offset (pos limit) rows) ≤ limit)
page_bound offset limit rows = elim (Bool-cases (ltb 200 limit)) [
  | inl large ↦
      rw large (length-slice offset 200 rows, ground (arith, length-slice offset 200 rows))
  | inr small ↦
      rw small (ground (arith, length-slice offset limit rows), length-slice offset limit rows)
]
