-- ===== src/Paging.antt =====
-- The pages of a list that is ordered by time of creation and id, newest first, with the id of a row
-- as the cursor: `admin_domain_list` and `domain_operations` of app/context_engine/services/domains.py
-- and `list_sources` and `source_operations` of app/context_engine/services/sources.py, which read
-- their pages in the same way. A cursor is the id that its text stands for.
pub mod Ordered
pub mod Complete
mod Tests
use ce_local_studio.Base.{
  ℕ, zero, suc, ◌+◌, Bool, true, false, not, ◌&&◌, ◌||◌, Option, none, some, List, [], ◌∷◌, ◌++◌,
  length, select, take, find, ltb, leb, ◌==◌, if◌then◌else◌, Result, ok, err,
}

pub data PageError : Type 0 where
  validation_error cursor_expired : PageError

pub record Page {ℓ} (A : Type ℓ) : Type ℓ where
  pub rows : List A
  pub next_cursor : Option ℕ

abbrev pub max_list_page_size : ℕ
max_list_page_size = 100

module _ {ℓ} {A : Type ℓ} (created_at : A → ℕ) (id : A → ℕ) where
  -- `created_at < anchor.created_at or created_at == anchor.created_at and id < anchor.id`
  abbrev pub older_than : A → A → Bool
  older_than anchor row =
      ltb (created_at row) (created_at anchor)
      || ((created_at row == created_at anchor) && ltb (id row) (id anchor))

  -- `ORDER BY created_at DESC, id DESC`, by insertion.
  abbrev pub insert_row : A → List A → List A
  insert_row x [] = x ∷ []
  insert_row x (y ∷ ys) =
      let rest = insert_row x ys in if older_than y x then y ∷ rest else x ∷ y ∷ ys

  abbrev pub order_by : List A → List A
  order_by [] = []
  order_by (x ∷ xs) = insert_row x (order_by xs)

  abbrev pub last_id : List A → Option ℕ
  last_id [] = none
  last_id (x ∷ []) = some (id x)
  last_id (x ∷ y ∷ ys) = last_id (y ∷ ys)

  -- The page of the rows that the query returned.
  abbrev pub page_of : ℕ → List A → Page A
  page_of limit rows = record {
    rows = take limit rows;
    next_cursor = if ltb limit (length rows) then last_id (take limit rows) else none;
  }

  abbrev pub within : Option A → List A → List A
  within none table = table
  within (some anchor) table = select (older_than anchor) table

  -- The query of a page: one row more than the page holds.
  abbrev pub query : ℕ → Option A → List A → List A
  query limit anchor table = take (suc limit) (order_by (within anchor table))

  abbrev pub find_anchor : Option ℕ → List A → Result PageError (Option A)
  find_anchor none table = ok none
  find_anchor (some cursor) table = elim (find (λ row. id row == cursor) table) [
    | none ↦ err cursor_expired
    | some anchor ↦ ok (some anchor)
  ]

  abbrev pub page_from : ℕ → List A → Result PageError (Option A) → Result PageError (Page A)
  page_from limit table (err raised) = err raised
  page_from limit table (ok anchor) = ok (page_of limit (query limit anchor table))

  unfoldable pub list_page : ℕ → Option ℕ → List A → Result PageError (Page A)
  list_page limit cursor table =
      if not (leb 1 limit && leb limit max_list_page_size)
      then err validation_error
      else page_from limit table (find_anchor cursor table)

  abbrev pub gathered : Page A → Option (List A) → Option (List A)
  gathered page none = none
  gathered page (some rest) = some (page.rows ++ rest)

  abbrev pub at_next : Option ℕ → (ℕ → Option (List A)) → Option (List A)
  at_next none rest = some []
  at_next (some cursor) rest = rest cursor

  abbrev pub after_page : Result PageError (Page A) → (ℕ → Option (List A)) → Option (List A)
  after_page (err raised) rest = none
  after_page (ok page) rest = gathered page (at_next page.next_cursor rest)

  -- A client that follows the cursors, for at most `fuel` pages, gathers the rows.
  unfoldable pub follow : ℕ → ℕ → Option ℕ → List A → Option (List A)
  unfolding list_page
  follow zero limit cursor table = none
  follow (suc fuel) limit cursor table =
      after_page (list_page limit cursor table) (λ next. follow fuel limit (some next) table)
