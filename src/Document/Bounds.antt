-- ===== src/Document/Bounds.antt =====
-- A byte range lies within the document.
use ce_local_studio.Base.{
  ℕ, ◌-◌, ◌≤◌, ◌<◌, ◌≡◌, refl, Bool, true, false, ◌&&◌, ◌||◌, Option, none, some, arith, Result, ok,
  err, ltb, leb, min, if◌then◌else◌, any, ◌==◌,
}
use ce_local_studio.Turn.Types.{Text}
use ce_local_studio.Turn.Stream.{strip, is_empty}
use ce_local_studio.Document.{
  RangeError, range_not_satisfiable, value_error, value_from, too_long, match_range, from_start,
  from_end, matched_range, parse_byte_range,
}

-- What a parse may come back with: the whole body, a range within `total_size`, or an error.
abbrev pub Bounded : ℕ → Result RangeError (Option (ℕ × ℕ)) → Type 0
Bounded total_size (ok none) = Unit {0}
Bounded total_size (ok (some (start, end))) = (start ≤ end) × (end < total_size)
Bounded total_size (err (range_not_satisfiable size)) = size ≡ total_size
Bounded total_size (err value_error) = Unit {0}

-- The three checks of a range, by their outcomes.
checked_start :
    (total_size start end : ℕ) (long bad : Bool)
    → (ltb end start || leb total_size start) ≡ bad
    → Bounded total_size (
        if long
        then err value_error
        else if bad
        then err (range_not_satisfiable total_size)
        else ok (some (start, min end (total_size - 1))))
checked_start total_size start end true bad e = tt
checked_start total_size start end false true e = refl
checked_start total_size start end false false e = (ground (arith, e), ground (arith, e))

checked_end :
    (total_size suffix : ℕ) (long bad : Bool)
    → leb total_size 0 ≡ false
    → leb suffix 0 ≡ bad
    → Bounded total_size (
        if long
        then err value_error
        else if bad
        then err (range_not_satisfiable total_size)
        else ok (some (total_size - suffix, total_size - 1)))
checked_end total_size suffix true bad p e = tt
checked_end total_size suffix false true p e = refl
checked_end total_size suffix false false p e = (ground (arith, p, e), ground (arith, p, e))

checked_groups :
    (total_size : ℕ) (a b : Text) (zero bare last : Bool)
    → leb total_size 0 ≡ zero
    → Bounded total_size (
        if zero
        then err (range_not_satisfiable 0)
        else if bare
        then err (range_not_satisfiable total_size)
        else if last
        then from_end total_size b
        else from_start total_size a b)
checked_groups total_size a b true bare last e = ground (arith, e)
checked_groups total_size a b false true last e = refl
checked_groups total_size a b false false true e =
    checked_end total_size (value_from 0 b) (too_long b) _ e refl
checked_groups total_size a b false false false e =
    checked_start total_size (value_from 0 a)
      (if is_empty b then total_size - 1 else value_from 0 b) (too_long a || too_long b) _ refl

matched_range-Bounded :
    (total_size : ℕ) (o : Option (Text × Text)) → Bounded total_size (matched_range total_size o)
matched_range-Bounded total_size none = refl
matched_range-Bounded total_size (some (a, b)) =
    checked_groups total_size a b (leb total_size 0) (is_empty a && is_empty b) (is_empty a) refl

-- Whatever the header: a range that is accepted is not empty and ends within the document, so the
-- storage is never asked for a byte outside it; and a refusal names the document's size.
pub parse_byte_range-Bounded :
    (range_header : Option Text) (total_size : ℕ)
    → Bounded total_size (parse_byte_range range_header total_size)
unfolding parse_byte_range
parse_byte_range-Bounded none total_size = tt
parse_byte_range-Bounded (some range_header) total_size =
    go (is_empty (strip range_header)) (any (λ c. c == 44) (strip range_header))
  where
    go :
        (blank several : Bool)
        → Bounded total_size (
            if blank
            then ok none
            else if several
            then err (range_not_satisfiable total_size)
            else matched_range total_size (match_range (strip range_header)))
    go true several = tt
    go false true = refl
    go false false = matched_range-Bounded total_size (match_range (strip range_header))
