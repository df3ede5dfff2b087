-- ===== src/Preparation/Stale.antt =====
-- A publication whose generation is over.
use ce_local_studio.Base.{ℕ, ◌<◌, ◌≡◌, refl, Option, none, some, arith, inl, inr, Option-cases}
use mathlib.Core.Path.{subst}
use ce_local_studio.Preparation.Types.{PreparationOperation, SourceDocument, SourceRows}
use ce_local_studio.Preparation.Publish.{
  PreparedSource, cas_operation, cas_source, cas_finalize_preparation, published,
  publish_prepared_source,
}
use ce_local_studio.Preparation.Worker.{PreparationSettings}
use ce_local_studio.Preparation.Kept.{Kept, Closed, publish-rows}
use ce_local_studio.Preparation.Steps.{Steps, Steps-Kept}

-- The source is gone, or of a generation past `g`.
abbrev Past : ℕ → Option SourceDocument → Type 0
Past g = Kept (λ s. g < s.preparation_generation)

Past-Closed : (g : ℕ) → Closed (λ s. g < s.preparation_generation)
Past-Closed g = record {
  advances = λ s now pending h. omega (arith, h);
  dooms = λ s now h. omega (arith, h);
  prepares = λ s content now pending h. h;
}

cas_source_outdated :
    (g content now : ℕ) (source : Option SourceDocument)
    → Past g source
    → cas_source g content now source ≡ none
unfolding cas_source
cas_source_outdated g content now none p = refl
cas_source_outdated g content now (some s) (inl n) = absurd (ground (arith, n))
cas_source_outdated g content now (some s) (inr (t, f, l)) = ground (arith, f, l)

cas_finalize_outdated :
    (id owner g content now : ℕ) (rows : SourceRows)
    → Past g rows.source
    → cas_finalize_preparation id owner g content now rows ≡ none
unfolding cas_finalize_preparation
cas_finalize_outdated id owner g content now rows p =
    elim (Option-cases (cas_operation id owner g now rows.operations)) [
      | inl e ↦ rw (e, cas_finalize_preparation) refl
      | inr (os, e) ↦
          rw (e, cas_source_outdated g content now rows.source p, cas_finalize_preparation) refl
    ]

unpublished :
    (copy other : PreparationOperation)
    → some copy ≡ some other
    → (owner finishing : ℕ) (prepared : PreparedSource) (rows : SourceRows)
    → Past copy.preparation_generation_at_start rows.source
    → (published rows (
        cas_finalize_preparation other.id owner other.preparation_generation_at_start
          prepared.content finishing rows)).1
      ≡ rows
unpublished copy other same owner finishing prepared rows past =
    let generations : copy.preparation_generation_at_start ≡ other.preparation_generation_at_start =
      ground (arith, same) in
    let later : Past other.preparation_generation_at_start rows.source =
      subst (λ g. Past g rows.source) generations past in
    rw
      (
        cas_finalize_outdated other.id owner other.preparation_generation_at_start prepared.content
            finishing rows later,
        published,
      )
      refl

-- Whatever copy of its source a worker holds, and whatever transactions the other requests and workers
-- commit after the source's generation has passed the one that the worker's operation began with
-- (retries, cancellations, requests to delete, claims, heartbeats, failures, publications, the steps of
-- the delete worker, the removal with its domain), the publication of what that operation parsed
-- changes no row.
pub superseded_preparation :
    {settings : PreparationSettings} {rows after : SourceRows}
    → Steps settings rows after
    → (copy : PreparationOperation) (source : SourceDocument) → rows.source ≡ some source
    → copy.preparation_generation_at_start < source.preparation_generation
    → (owner now finishing : ℕ) (prepared : PreparedSource) (held : Option SourceDocument)
    → (publish_prepared_source owner now finishing prepared (some copy) held after).1 ≡ after
superseded_preparation {after = after} path copy source e l owner now finishing prepared held =
    let past : Past copy.preparation_generation_at_start after.source =
      Steps-Kept path (λ s. copy.preparation_generation_at_start < s.preparation_generation)
        (Past-Closed copy.preparation_generation_at_start) (inr (source, e, l)) in
    publish-rows (λ x. x ≡ after) owner now finishing prepared (some copy) held after refl
      (λ other same. unpublished copy other same owner finishing prepared after past)
