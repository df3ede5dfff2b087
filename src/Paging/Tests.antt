-- ===== src/Paging/Tests.antt =====
-- Pages of a small list: rows are pairs of a time and an id.
use ce_local_studio.Base.{ℕ, ◌≡◌, refl, none, some, List, [], ◌∷◌, arith, ok, err}
use mathlib.Core.List.{Permᴰ}
use ce_local_studio.Paging.{cursor_expired, validation_error, list_page, follow}
use ce_local_studio.Paging.Ordered.{Newest}
use ce_local_studio.Paging.Complete.{follow_reads_all}

abbrev Row : Type 0
Row = ℕ × ℕ

abbrev time : Row → ℕ
time row = row.0

abbrev number : Row → ℕ
number row = row.1

abbrev table : List Row
table = (10, 1) ∷ (30, 2) ∷ (20, 3) ∷ (30, 4) ∷ []

first_page :
    list_page time number 3 none table
    ≡ ok (record { rows = (30, 4) ∷ (30, 2) ∷ (20, 3) ∷ []; next_cursor = some 3 })
unfolding list_page
first_page = refl

last_page :
    list_page time number 3 (some 3) table ≡ ok (record { rows = (10, 1) ∷ []; next_cursor = none })
unfolding list_page
last_page = refl

lost_cursor : list_page time number 3 (some 9) table ≡ err cursor_expired
unfolding list_page
lost_cursor = refl

no_limit : list_page time number 101 none table ≡ err validation_error
unfolding list_page
no_limit = refl

follow_reads_all_example :
    (rows : List Row) × (follow time number 5 2 none table ≡ some rows)
    × Newest time number rows
    × Permᴰ rows table
follow_reads_all_example =
    follow_reads_all time number 2 table (omega arith) (omega arith)
      ((refl, (refl, (refl, tt))), ((refl, (refl, tt)), ((refl, tt), (tt, tt))))
