-- ===== src/Http/Params.antt =====
-- Query parameters: strconv.Atoi, whose error the handlers drop, and the tests on page and size.
use Prim.Native.Char.{code}
use Prim.Native.String.{String}
use devops_manager.Prelude.{
  ℕ, zero, suc, ◌+◌, ◌-◌, ◌*◌, ◌≤◌, ℤ, pos, negsuc, Option, none, some, ◌&&◌, ◌||◌, ◌==◌, leb, ltb,
  if◌then◌else◌, max_int64, arith,
}

-- The number that decimal digits write after `acc`; `none` at any other character.
digits : ℕ → String → Option ℕ
digits acc String.[] = some acc
digits acc (String.◌∷◌ c s) =
    if leb b'0' (code c) && leb (code c) b'9' then digits (acc * 10 + (code c - b'0')) s else none

magnitude : String → Option ℕ
unfolding digits
magnitude String.[] = none
magnitude (String.◌∷◌ c s) = digits 0 (String.◌∷◌ c s)

-- A number that is out of range is the nearest int64.
at_most : ℕ → ℕ → ℕ
at_most bound n = if leb n bound then n else bound

negative : ℕ → ℤ
unfolding at_most
negative zero = pos 0
negative (suc n) = negsuc (at_most max_int64 n)

-- The int that `strconv.Atoi` returns, with its error or without: 0 for a text that is no number.
unfoldable pub atoi : String → ℤ
unfolding magnitude negative at_most
atoi String.[] = pos 0
atoi (String.◌∷◌ c s) =
    if code c == b'-'
    then elim (magnitude s) [ none ↦ pos 0 | some n ↦ negative n ]
    else elim (magnitude (if code c == b'+' then s else String.◌∷◌ c s)) [
      | none ↦ pos 0
      | some n ↦ pos (at_most max_int64 n)
    ]

-- `c.DefaultQuery`: the default stands only for a parameter that is absent.
abbrev pub default_query : String → Option String → String
default_query default none = default
default_query default (some text) = text

-- `if page < 1 { page = 1 }`
abbrev pub at_least_one : ℤ → ℕ
at_least_one (pos zero) = 1
at_least_one (pos (suc n)) = suc n
at_least_one (negsuc n) = 1

-- `if size < 1 || size > 100 { size = 20 }`
abbrev pub within_hundred : ℤ → ℕ
within_hundred (pos n) = if ltb n 1 || ltb 100 n then 20 else n
within_hundred (negsuc n) = 20

pub record PageQuery : Type 0 where
  pub page : Option String
  pub size : Option String

unfoldable pub page_number : PageQuery → ℕ
unfolding atoi
page_number q = at_least_one (atoi (default_query "1" q.page))

unfoldable pub page_size : PageQuery → ℕ
unfolding atoi
page_size q = within_hundred (atoi (default_query "20" q.size))

pub at_least_one_bounds : (z : ℤ) → 1 ≤ at_least_one z
at_least_one_bounds (pos zero) = omega arith
at_least_one_bounds (pos (suc n)) = omega arith
at_least_one_bounds (negsuc n) = omega arith

pub within_hundred_bounds : (z : ℤ) → (1 ≤ within_hundred z) × (within_hundred z ≤ 100)
within_hundred_bounds (pos n) = ground arith
within_hundred_bounds (negsuc n) = ground arith

pub page_number_bounds : (q : PageQuery) → 1 ≤ page_number q
unfolding page_number
page_number_bounds q = at_least_one_bounds (atoi (default_query "1" q.page))

pub page_size_bounds : (q : PageQuery) → (1 ≤ page_size q) × (page_size q ≤ 100)
unfolding page_size
page_size_bounds q = within_hundred_bounds (atoi (default_query "20" q.size))
