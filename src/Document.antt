-- ===== src/Document.antt =====
-- The byte range of a request for a document's content, `parse_byte_range` of
-- app/context_engine/services/documents.py.
pub mod Bounds
mod Tests
use ce_local_studio.Base.{
  ℕ, ◌+◌, ◌-◌, ◌*◌, max, min, Bool, true, false, not, ◌&&◌, ◌||◌, Option, none, some, List, [], ◌∷◌,
  Result, ok, err, ltb, leb, ◌==◌, if◌then◌else◌, same_text, take, drop, length, any,
}
use ce_local_studio.Turn.Types.{Text}
use ce_local_studio.Turn.Stream.{strip, is_empty}

-- `DocumentError(416, …)` with the total size in its `Content-Range`, and the `ValueError` of `int`
-- on more than 4300 digits.
pub data RangeError : Type 0 where
  range_not_satisfiable : (total_size : ℕ) → RangeError
  value_error : RangeError

abbrev is_digit : ℕ → Bool
is_digit c = leb 48 c && leb c 57

abbrev all_digits : Text → Bool
all_digits [] = true
all_digits (c ∷ cs) = is_digit c && all_digits cs

-- `int` of a text of digits, from the value of the digits before it.
abbrev pub value_from : ℕ → Text → ℕ
value_from n [] = n
value_from n (c ∷ cs) = value_from (n * 10 + (c - 48)) cs

-- The text before the first hyphen, and the one after it.
abbrev cut : Text → Option (Text × Text)
cut [] = none
cut (c ∷ cs) =
    let rest = cut cs in
    if c == 45 then some ([], cs) else elim rest [ none ↦ none | some (a, b) ↦ some (c ∷ a, b) ]

abbrev groups : Option (Text × Text) → Option (Text × Text)
groups none = none
groups (some (a, b)) = if all_digits a && all_digits b then some (a, b) else none

-- The two groups of `^bytes=(\d*)-(\d*)$`; a header has no digits but the ASCII ones.
unfoldable pub match_range : Text → Option (Text × Text)
match_range raw =
    if same_text (take 6 raw) (98 ∷ 121 ∷ 116 ∷ 101 ∷ 115 ∷ 61 ∷ [])
    then groups (cut (drop 6 raw))
    else none

abbrev pub too_long : Text → Bool
too_long digits = ltb 4300 (length digits)

-- A range of which both ends are given, or the first alone.
abbrev pub from_start : ℕ → Text → Text → Result RangeError (Option (ℕ × ℕ))
from_start total_size start_raw end_raw =
    let start = value_from 0 start_raw in
    let end = if is_empty end_raw then total_size - 1 else value_from 0 end_raw in
    if too_long start_raw || too_long end_raw
    then err value_error
    else if ltb end start || leb total_size start
    then err (range_not_satisfiable total_size)
    else ok (some (start, min end (total_size - 1)))

-- The last bytes.
abbrev pub from_end : ℕ → Text → Result RangeError (Option (ℕ × ℕ))
from_end total_size end_raw =
    let suffix = value_from 0 end_raw in
    if too_long end_raw
    then err value_error
    else if leb suffix 0
    then err (range_not_satisfiable total_size)
    else ok (some (total_size - suffix, total_size - 1))

abbrev pub matched_range : ℕ → Option (Text × Text) → Result RangeError (Option (ℕ × ℕ))
matched_range total_size none = err (range_not_satisfiable total_size)
matched_range total_size (some (start_raw, end_raw)) =
    if leb total_size 0
    then err (range_not_satisfiable 0)
    else if is_empty start_raw && is_empty end_raw
    then err (range_not_satisfiable total_size)
    else if is_empty start_raw
    then from_end total_size end_raw
    else from_start total_size start_raw end_raw

abbrev pub parse_raw : ℕ → Text → Result RangeError (Option (ℕ × ℕ))
parse_raw total_size raw =
    if is_empty raw
    then ok none
    else if any (λ c. c == 44) raw
    then err (range_not_satisfiable total_size)
    else matched_range total_size (match_range raw)

-- The inclusive range, or `none` for the whole body.
unfoldable pub parse_byte_range : Option Text → ℕ → Result RangeError (Option (ℕ × ℕ))
unfolding match_range
parse_byte_range none total_size = ok none
parse_byte_range (some range_header) total_size = parse_raw total_size (strip range_header)
