-- ===== src/Document/Tests.antt =====
-- The result on byte ranges, at a concrete header.
use ce_local_studio.Base.{◌≡◌, refl, some, [], ◌∷◌, ok}
use ce_local_studio.Turn.Types.{Text}
use ce_local_studio.Turn.Stream.{strip}
use ce_local_studio.Document.{parse_byte_range, match_range}
use ce_local_studio.Document.Bounds.{Bounded, parse_byte_range-Bounded}

-- `bytes=-5`
abbrev last_five : Text
last_five = 98 ∷ 121 ∷ 116 ∷ 101 ∷ 115 ∷ 61 ∷ 45 ∷ 53 ∷ []

parse_byte_range-Bounded_example : Bounded 20 (parse_byte_range (some last_five) 20)
parse_byte_range-Bounded_example = parse_byte_range-Bounded (some last_five) 20

last_bytes : parse_byte_range (some last_five) 20 ≡ ok (some (15, 19))
unfolding parse_byte_range match_range strip
last_bytes = refl
