-- ===== src/Indexing/Plan/Retry.antt =====
-- src/erp_ai/knowledge/indexing/publisher.py: a plan that is built again, at another time and with
-- new identities.
use ai_systems_try.Base.{
  ℕ, ◌++◌, ok, ap, option_eq, ◌≡◌, refl, sym, ◌∙◌, String, Bool, false, not, ◌||◌, List, [], ◌∷◌,
  any, is_subset, ◌==◌, string_eq, list_eq, nat_eq, arith, raise_if, >>-eq-ok,
}
use ai_systems_try.Base.Dict
use ai_systems_try.Base.Sort.{string_ord, pair_ord}
use ai_systems_try.Base.Sort.Laws.{any-sorted}
use ai_systems_try.Indexing.{
  PreparedKnowledgeBundle, KnowledgePublicationContext, KnowledgePublicationPlan,
  IndexPublicationLimits, namespace_out_of_scope, module_unavailable, document_expired,
}
use ai_systems_try.Indexing.Digest.{Environment}
use ai_systems_try.Indexing.Bundles.{validate_chunk_metadata}
use ai_systems_try.Indexing.Plan.{
  Progress, start, add, bundle_key, check_bundle, validate_bundles, scope_of, plan_of, build_plan,
  is_expired, modules_of, check_version, check_ids, check_source,
}
use ai_systems_try.Indexing.Plan.Steps.{
  validate_bundles-nil, validate_bundles-cons, build_plan-eq-ok,
}
use ai_systems_try.Indexing.Bundles.{check_chunks}

-- The environment of a later call: another reading of the clock, and other UUIDs.
abbrev pub later : Environment → ℕ → String → String → Environment
later environment now generation_id outbox_id = record environment {
  now = now;
  generation_id = generation_id;
  outbox_id = outbox_id;
}

any-append {ℓ} :
    {A : Type ℓ} (p : A → Bool) (xs : List A) (x : A) → any p (xs ++ x ∷ []) ≡ (any p xs || p x)
any-append p [] x = ground arith
any-append p (y ∷ xs) x = ground (arith, any-append p xs x)

module _ (environment : Environment) (now : ℕ) (generation_id outbox_id : String) where
  abbrev again : Environment
  again = later environment now generation_id outbox_id

  -- The bundle has a chunk that is expired at the later time.
  abbrev pub is_stale : PreparedKnowledgeBundle → Bool
  is_stale bundle = any (is_expired again) bundle.chunks

  check_chunks-again :
      (manifest : _) (invariant : _) (chunks : _)
      → check_chunks again manifest invariant chunks
        ≡ check_chunks environment manifest invariant chunks
  unfolding check_chunks
  check_chunks-again manifest invariant [] = refl
  check_chunks-again manifest invariant (chunk ∷ rest) =
      rw (check_chunks-again manifest invariant rest) refl

  validate_chunk_metadata-again :
      (manifest : _) (total : ℕ) (chunks : _)
      → validate_chunk_metadata again manifest total chunks
        ≡ validate_chunk_metadata environment manifest total chunks
  unfolding validate_chunk_metadata
  validate_chunk_metadata-again manifest total [] = refl
  validate_chunk_metadata-again manifest total (first ∷ rest) =
      rw (check_chunks-again manifest first.governance (first ∷ rest)) refl

  check_bundle-again :
      (trusted : KnowledgePublicationContext) (progress : Progress)
      (bundle : PreparedKnowledgeBundle)
      → check_bundle environment trusted (scope_of trusted) progress bundle ≡ ok tt
      → is_stale bundle ≡ false
      → check_bundle again trusted (scope_of trusted) progress bundle ≡ ok tt
  unfolding check_bundle
  check_bundle-again trusted progress bundle h fresh =
      let version =
        >>-eq-ok
          (check_version (Dict.get bundle.manifest.document_id progress.document_versions)
            bundle.manifest.document_version)
          _ h in
      let ids =
        >>-eq-ok (check_ids progress.chunk_ids progress.citation_ids bundle.chunks) _ version.1 in
      let metadata =
        >>-eq-ok
          (validate_chunk_metadata environment bundle.manifest bundle.total_chunk_count
            bundle.chunks)
          _ ids.1 in
      let outside = not (bundle.manifest.namespace == trusted.namespace) in
      let namespace = >>-eq-ok (raise_if outside namespace_out_of_scope) _ metadata.1 in
      let source =
        >>-eq-ok
          (check_source bundle.manifest.source_type bundle.manifest.customer_environment_id
            (scope_of trusted))
          _ namespace.1 in
      let missing = not (is_subset (modules_of bundle.chunks) trusted.installed_modules) in
      let modules = >>-eq-ok (raise_if missing module_unavailable) _ source.1 in
      let expired = any (is_expired environment) bundle.chunks in
      let expiry = >>-eq-ok (raise_if expired document_expired) _ modules.1 in
      rw
        (
          version.0,
          ids.0,
          validate_chunk_metadata-again bundle.manifest bundle.total_chunk_count bundle.chunks,
          metadata.0,
          namespace.0,
          source.0,
          modules.0,
          fresh,
          expiry.1,
        )
        refl

  -- A bundle that has been validated stays validated.
  validate_bundles-kept :
      (trusted : KnowledgePublicationContext) (limits : IndexPublicationLimits)
      (bundles : List PreparedKnowledgeBundle) (progress last : Progress)
      → validate_bundles environment trusted (scope_of trusted) limits bundles progress ≡ ok last
      → any is_stale last.validated ≡ false
      → any is_stale progress.validated ≡ false
  validate_bundles-kept trusted limits [] progress last h fresh =
      rw (validate_bundles-nil environment trusted limits progress last h) fresh
  validate_bundles-kept trusted limits (original ∷ rest) progress last h fresh =
      let (bundle, valid, checked, limited, looped) =
        validate_bundles-cons environment trusted limits original rest progress last h in
      ground (
        arith,
        validate_bundles-kept trusted limits rest (add progress bundle) last looped fresh,
        any-append is_stale progress.validated bundle,
      )

  validate_bundles-again :
      (trusted : KnowledgePublicationContext) (limits : IndexPublicationLimits)
      (bundles : List PreparedKnowledgeBundle) (progress last : Progress)
      → validate_bundles environment trusted (scope_of trusted) limits bundles progress ≡ ok last
      → any is_stale last.validated ≡ false
      → validate_bundles again trusted (scope_of trusted) limits bundles progress ≡ ok last
  unfolding validate_bundles
  validate_bundles-again trusted limits [] progress last h fresh = h
  validate_bundles-again trusted limits (original ∷ rest) progress last h fresh =
      let (bundle, valid, checked, limited, looped) =
        validate_bundles-cons environment trusted limits original rest progress last h in
      let kept =
        validate_bundles-kept trusted limits rest (add progress bundle) last looped fresh in
      let fresh_bundle : is_stale bundle ≡ false =
        ground (arith, kept, any-append is_stale progress.validated bundle) in
      rw (valid, check_bundle-again trusted progress bundle checked fresh_bundle, limited)
        (validate_bundles-again trusted limits rest (add progress bundle) last looped fresh)

  -- A plan can be built again as long as none of its chunks is expired; it is for the same context,
  -- has the same bundles and the same digest of the operation.
  pub build_plan-again :
      (context : KnowledgePublicationContext) (bundles : List PreparedKnowledgeBundle)
      (limits : IndexPublicationLimits) (plan : KnowledgePublicationPlan)
      → build_plan environment context bundles limits ≡ ok plan
      → any is_stale plan.bundles ≡ false
      → (plan' : KnowledgePublicationPlan) × (build_plan again context bundles limits ≡ ok plan')
        × (plan'.context ≡ plan.context)
        × (plan'.bundles ≡ plan.bundles)
        × (plan'.operation_digest ≡ plan.operation_digest)
  unfolding build_plan
  build_plan-again context bundles limits plan h fresh =
      let (trusted, progress, valid, counted, validated, planned) =
        build_plan-eq-ok environment context bundles limits plan h in
      let unsorted : any is_stale progress.validated ≡ false =
        sym (any-sorted bundle_key is_stale progress.validated)
        ∙ ap (λ p. any is_stale p.bundles) planned
        ∙ fresh in
      (
        plan_of again trusted progress,
        rw
            (
              valid,
              counted,
              validate_bundles-again trusted limits bundles start progress validated unsorted,
            )
            refl,
        ap (λ p. p.context) planned,
        ap (λ p. p.bundles) planned,
        ap (λ p. p.operation_digest) planned,
      )
