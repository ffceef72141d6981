-- ===== src/Indexing/Plan/Laws.antt =====
-- src/erp_ai/knowledge/indexing/publisher.py: what a publication plan contains.
use ai_systems_try.Base.{
  ◌≤◌, ◌≡◌, refl, sym, ◌∙◌, subst, String, Bool, true, false, not, ◌||◌, Option, none, some, List,
  [], ◌∷◌, All, All-append, any, ltb, ltb→le, length, is_subset, ◌==◌, string_eq, list_eq, nat_eq,
  arith, ok, raise_if, sum_by-append, >>-eq-ok, raise_if-eq-ok,
}
use ai_systems_try.Base.Dict
use ai_systems_try.Base.Sort.{string_ord, pair_ord}
use ai_systems_try.Base.Sort.Laws.{
  IsSorted, sorted-IsSorted, All-sorted, sum_by-sorted, length-sorted,
}
use ai_systems_try.Knowledge.{KnowledgeSourceType, product_documentation, customer_policy}
use ai_systems_try.Indexing.{
  customer_out_of_scope, PreparedKnowledgeBundle, KnowledgePublicationContext,
  KnowledgePublicationPlan, IndexPublicationLimits, namespace_out_of_scope, module_unavailable,
  document_expired, classification_unsupported,
}
use ai_systems_try.Indexing.Digest.{Environment, count_chunks, count_bytes}
use ai_systems_try.Indexing.Bundles.{validate_chunk_metadata}
use ai_systems_try.Indexing.Plan.{
  Progress, start, add, exceeds, bundle_key, check_bundle, validate_bundles, or_untrusted, scope_of,
  plan_of, build_plan, is_expired, is_highly_restricted, modules_of, check_version, check_ids,
  check_source,
}
use ai_systems_try.Indexing.Plan.Steps.{
  validate_bundles-nil, validate_bundles-cons, build_plan-eq-ok,
}

||-eq-false : (a b : Bool) → (a || b) ≡ false → (a ≡ false) × (b ≡ false)
||-eq-false true b h = cc
||-eq-false false b h = (refl, h)

module _ (environment : Environment) where
  open environment use {now}

  or_untrusted-eq-ok :
      (context : Option KnowledgePublicationContext) {trusted : KnowledgePublicationContext}
      → or_untrusted context ≡ ok trusted
      → context ≡ some trusted
  or_untrusted-eq-ok none h = cc
  or_untrusted-eq-ok (some context) h = cc

  -- Product documentation has no customer, a policy is of the context's.
  abbrev pub IsOfCustomer :
      KnowledgeSourceType → Option String → KnowledgePublicationContext → Type 0
  IsOfCustomer product_documentation customer trusted = customer ≡ none
  IsOfCustomer customer_policy customer trusted = customer ≡ some trusted.customer_environment_id

  check_source-IsOfCustomer :
      (source : KnowledgeSourceType) (customer : Option String)
      (trusted : KnowledgePublicationContext)
      → check_source source customer (scope_of trusted) ≡ ok tt
      → IsOfCustomer source customer trusted
  unfolding check_source
  check_source-IsOfCustomer product_documentation none trusted h = refl
  check_source-IsOfCustomer product_documentation (some c) trusted h = cc
  check_source-IsOfCustomer customer_policy customer trusted h =
      ground (arith, raise_if-eq-ok _ customer_out_of_scope h)

  -- A bundle that the context may publish.
  abbrev pub IsPublishable : KnowledgePublicationContext → PreparedKnowledgeBundle → Type 0
  IsPublishable trusted bundle =
      ((bundle.manifest.namespace == trusted.namespace) ≡ true)
      × IsOfCustomer bundle.manifest.source_type bundle.manifest.customer_environment_id trusted
      × (is_subset (modules_of bundle.chunks) trusted.installed_modules ≡ true)
      × (any (is_expired environment) bundle.chunks ≡ false)
      × (any (λ chunk. is_highly_restricted chunk.governance.data_classification) bundle.chunks
          ≡ false)
      × (validate_chunk_metadata environment bundle.manifest bundle.total_chunk_count bundle.chunks
          ≡ ok tt)

  check_bundle-IsPublishable :
      (trusted : KnowledgePublicationContext) (progress : Progress)
      (bundle : PreparedKnowledgeBundle)
      → check_bundle environment trusted (scope_of trusted) progress bundle ≡ ok tt
      → IsPublishable trusted bundle
  unfolding check_bundle
  check_bundle-IsPublishable trusted progress bundle h =
      let version =
        >>-eq-ok
          (check_version (Dict.get bundle.manifest.document_id progress.document_versions)
            bundle.manifest.document_version)
          _ h in
      let ids =
        >>-eq-ok (check_ids progress.chunk_ids progress.citation_ids bundle.chunks) _ version.1 in
      let metadata =
        >>-eq-ok
          (validate_chunk_metadata environment bundle.manifest bundle.total_chunk_count
            bundle.chunks)
          _ ids.1 in
      let outside = not (bundle.manifest.namespace == trusted.namespace) in
      let namespace = >>-eq-ok (raise_if outside namespace_out_of_scope) _ metadata.1 in
      let source =
        >>-eq-ok
          (check_source bundle.manifest.source_type bundle.manifest.customer_environment_id
            (scope_of trusted))
          _ namespace.1 in
      let missing = not (is_subset (modules_of bundle.chunks) trusted.installed_modules) in
      let modules = >>-eq-ok (raise_if missing module_unavailable) _ source.1 in
      let expired = any (is_expired environment) bundle.chunks in
      let expiry = >>-eq-ok (raise_if expired document_expired) _ modules.1 in
      (
        ground (arith, raise_if-eq-ok outside _ namespace.0),
        check_source-IsOfCustomer _ _ trusted source.0,
        ground (arith, raise_if-eq-ok missing _ modules.0),
        raise_if-eq-ok expired _ expiry.0,
        raise_if-eq-ok _ classification_unsupported expiry.1,
        metadata.0,
      )

  -- What the loop keeps: publishable bundles, their totals, and the limits.
  abbrev IsWithin : KnowledgePublicationContext → IndexPublicationLimits → Progress → Type 0
  IsWithin trusted limits progress =
      All (IsPublishable trusted) progress.validated
      × (progress.total_chunks ≡ count_chunks progress.validated)
      × (progress.total_bytes ≡ count_bytes progress.validated)
      × (exceeds limits progress ≡ false)

  add-IsWithin :
      (trusted : KnowledgePublicationContext) (limits : IndexPublicationLimits)
      (progress : Progress) (bundle : PreparedKnowledgeBundle)
      → IsWithin trusted limits progress
      → IsPublishable trusted bundle
      → exceeds limits (add progress bundle) ≡ false
      → IsWithin trusted limits (add progress bundle)
  add-IsWithin trusted limits progress bundle w p h = (
    All-append (IsPublishable trusted) progress.validated (bundle ∷ []) w.0 (p, tt),
    ground (arith, w.1, sum_by-append (λ b. length b.chunks) progress.validated bundle),
    ground
        (arith, w.2, sum_by-append (λ b. b.total_normalized_utf8_bytes) progress.validated bundle),
    h,
  )

  validate_bundles-IsWithin :
      (trusted : KnowledgePublicationContext) (limits : IndexPublicationLimits)
      (bundles : List PreparedKnowledgeBundle) (progress last : Progress)
      → IsWithin trusted limits progress
      → validate_bundles environment trusted (scope_of trusted) limits bundles progress ≡ ok last
      → IsWithin trusted limits last
  validate_bundles-IsWithin trusted limits [] progress last w h =
      subst (IsWithin trusted limits)
        (validate_bundles-nil environment trusted limits progress last h) w
  validate_bundles-IsWithin trusted limits (original ∷ rest) progress last w h =
      let (bundle, valid, checked, limited, looped) =
        validate_bundles-cons environment trusted limits original rest progress last h in
      validate_bundles-IsWithin trusted limits rest (add progress bundle) last
        (add-IsWithin trusted limits progress bundle w
          (check_bundle-IsPublishable trusted progress bundle checked) limited)
        looped

  -- The totals of the manifest are those of the bundles.
  abbrev pub IsCounted : KnowledgePublicationPlan → Type 0
  IsCounted plan =
      (plan.manifest.document_count ≡ length plan.bundles)
      × (plan.manifest.chunk_count ≡ count_chunks plan.bundles)
      × (plan.manifest.total_normalized_bytes ≡ count_bytes plan.bundles)

  abbrev pub IsLimited : IndexPublicationLimits → KnowledgePublicationPlan → Type 0
  IsLimited limits plan =
      (plan.manifest.document_count ≤ limits.maximum_documents)
      × (plan.manifest.chunk_count ≤ limits.maximum_chunks)
      × (plan.manifest.total_normalized_bytes ≤ limits.maximum_normalized_bytes)

  exceeds-IsLimited :
      (trusted : KnowledgePublicationContext) (limits : IndexPublicationLimits)
      (progress : Progress)
      → exceeds limits progress ≡ false
      → IsLimited limits (plan_of environment trusted progress)
  exceeds-IsLimited trusted limits progress h =
      let bytes = ||-eq-false _ (ltb limits.maximum_normalized_bytes progress.total_bytes) h in
      let counts =
        ||-eq-false (ltb limits.maximum_documents (length progress.validated))
          (ltb limits.maximum_chunks progress.total_chunks) bytes.0 in
      (
        rw (length-sorted (bundle_key) progress.validated) (ltb→le _ _ counts.0),
        ltb→le _ _ counts.1,
        ltb→le _ _ bytes.1,
      )

  -- The context is the validated one, which may publish the bundles; these are sorted, and the
  -- totals are theirs and within the limits.
  abbrev pub IsSound :
      KnowledgePublicationContext → IndexPublicationLimits → KnowledgePublicationPlan → Type 0
  IsSound context limits plan =
      (environment.validate_context context ≡ some plan.context)
      × All (IsPublishable plan.context) plan.bundles
      × IsSorted (bundle_key) plan.bundles
      × IsCounted plan
      × IsLimited limits plan

  plan_of-IsSound :
      (context trusted : KnowledgePublicationContext) (limits : IndexPublicationLimits)
      (progress : Progress)
      → or_untrusted (environment.validate_context context) ≡ ok trusted
      → IsWithin trusted limits progress
      → IsSound context limits (plan_of environment trusted progress)
  plan_of-IsSound context trusted limits progress valid w = (
    or_untrusted-eq-ok (environment.validate_context context) valid,
    All-sorted (bundle_key) (IsPublishable trusted) progress.validated w.0,
    sorted-IsSorted (bundle_key) progress.validated,
    (
      refl,
      w.1 ∙ sym (sum_by-sorted (bundle_key) _ progress.validated),
      w.2 ∙ sym (sum_by-sorted (bundle_key) _ progress.validated),
    ),
    exceeds-IsLimited trusted limits progress w.3,
  )

  start-IsWithin :
      (trusted : KnowledgePublicationContext) (limits : IndexPublicationLimits)
      → IsWithin trusted limits (start)
  start-IsWithin trusted limits = (tt, refl, refl, ground arith)

  -- A plan is made for the context as validated, for bundles that this context may publish, sorted
  -- by document ID and version, with their totals, which are within the limits.
  pub build_plan-IsSound :
      (context : KnowledgePublicationContext) (bundles : List PreparedKnowledgeBundle)
      (limits : IndexPublicationLimits) (plan : KnowledgePublicationPlan)
      → build_plan environment context bundles limits ≡ ok plan
      → IsSound context limits plan
  build_plan-IsSound context bundles limits plan h =
      let (trusted, progress, valid, counted, validated, planned) =
        build_plan-eq-ok environment context bundles limits plan h in
      subst (IsSound context limits) planned (
        plan_of-IsSound context trusted limits progress valid (
          validate_bundles-IsWithin trusted limits bundles (start) progress
            (start-IsWithin trusted limits) validated))
