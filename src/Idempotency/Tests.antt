-- ===== src/Idempotency/Tests.antt =====
-- The results on idempotency keys, at a concrete table.
use ce_local_studio.Base.{ℕ, ◌≡◌, refl, false, some, [], ◌∷◌, ok, err, leb, length, suc, zero}
use ce_local_studio.Turn.Types.{Text}
use ce_local_studio.Turn.Stream.{strip}
use ce_local_studio.Idempotency.{
  HttpIdempotencyRecord, capacity_unavailable, claimed, replay, new_record, begin_idempotent,
  complete_idempotent, completed_record, hash_idempotency_key,
}
use ce_local_studio.Idempotency.Once.{
  done, quiet, followed, other_begins, answer, completed_answers, claim_excludes,
}
use ce_local_studio.Idempotency.Lookup.{Table}

abbrev repeated : ℕ → ℕ → Text
repeated zero c = []
repeated (suc n) c = c ∷ repeated n c

abbrev print_of : Text
print_of = repeated 64 97

abbrev row : HttpIdempotencyRecord
row = new_record 5 3 1 print_of

-- References are texts that stand for themselves.
claims :
    begin_idempotent some [] length (λ c. leb c 9) false (λ t. t) 5 3 (107 ∷ []) print_of []
    ≡ ok (claimed row, row ∷ [])
unfolding begin_idempotent hash_idempotency_key strip
claims = refl

abbrev written : Table
written = completed_record 201 (100 ∷ []) (123 ∷ 125 ∷ []) 40 row ∷ []

completes : complete_idempotent row 201 (100 ∷ []) (123 ∷ 125 ∷ []) 40 (row ∷ []) ≡ ok written
unfolding complete_idempotent
completes = refl

completed_answers_example :
    begin_idempotent some [] length (λ c. leb c 9) false (λ t. t) 5 3 (107 ∷ []) print_of written
    ≡ answer print_of print_of (replay (some 201) (some (100 ∷ [])) (123 ∷ 125 ∷ [])) written
completed_answers_example =
    completed_answers some [] length (λ c. leb c 9) 5 3 (107 ∷ []) print_of print_of false false
      (λ t. t) (λ t. t) [] (row ∷ []) written written row 201 (100 ∷ []) (123 ∷ 125 ∷ []) 40
      (123 ∷ 125 ∷ []) claims completes refl done refl

-- Another key, begun in between.
abbrev next_row : HttpIdempotencyRecord
next_row = new_record 5 3 2 print_of

claims_next :
    begin_idempotent some [] length
      (λ c. leb c 9)
      false
      (λ t. t)
      5
      3
      (107 ∷ 108 ∷ [])
      print_of
      (row ∷ [])
    ≡ ok (claimed next_row, row ∷ next_row ∷ [])
unfolding begin_idempotent hash_idempotency_key strip
claims_next = refl

claim_excludes_example :
    begin_idempotent some [] length
      (λ c. leb c 9)
      false
      (λ t. t)
      5
      3
      (107 ∷ [])
      print_of
      (row ∷ next_row ∷ [])
    ≡ err capacity_unavailable
claim_excludes_example =
    claim_excludes some [] length (λ c. leb c 9) 5 3 (107 ∷ []) print_of print_of false false
      (λ t. t) (λ t. t) [] (row ∷ []) (row ∷ next_row ∷ []) row claims
      (followed quiet (
        other_begins false (λ t. t) 5 3 (107 ∷ 108 ∷ []) print_of (claimed next_row) quiet
          claims_next))
      refl
