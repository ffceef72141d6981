-- ===== src/Indexing/Plan/Steps.antt =====
-- src/erp_ai/knowledge/indexing/publisher.py: what build_plan and its loop have done when they return.
use ai_systems_try.Base.{
  false, raise_if-eq-ok, ◌≡◌, false, ◌||◌, List, [], ◌∷◌, ltb, length, string_eq, nat_eq, ok,
  raise_if, >>=-eq-ok, >>-eq-ok, ok-injective,
}
use ai_systems_try.Base.Sort.{string_ord, pair_ord}
use ai_systems_try.Capability.Access.{is_empty}
use ai_systems_try.Indexing.{
  PreparedKnowledgeBundle, KnowledgePublicationContext, KnowledgePublicationPlan,
  IndexPublicationLimits, bundle_count_invalid, limits_exceeded,
}
use ai_systems_try.Indexing.Digest.{Environment}
use ai_systems_try.Indexing.Plan.{
  Progress, start, add, exceeds, check_bundle, validate_bundles, or_invalid, or_untrusted, scope_of,
  plan_of, build_plan,
}

module _ (environment : Environment) where
  -- The first bundle has been valid, checked and within the limits.
  pub validate_bundles-cons :
      (trusted : KnowledgePublicationContext) (limits : IndexPublicationLimits)
      (original : PreparedKnowledgeBundle) (rest : List PreparedKnowledgeBundle)
      (progress last : Progress)
      → validate_bundles environment trusted (scope_of trusted) limits (original ∷ rest) progress
        ≡ ok last
      → (bundle : PreparedKnowledgeBundle) × (or_invalid (environment.validate_bundle original)
          ≡ ok bundle)
        × (check_bundle environment trusted (scope_of trusted) progress bundle ≡ ok tt)
        × (exceeds limits (add progress bundle) ≡ false)
        × (validate_bundles environment trusted (scope_of trusted) limits rest (add progress bundle)
            ≡ ok last)
  unfolding validate_bundles
  validate_bundles-cons trusted limits original rest progress last h =
      let (bundle, valid, checks) =
        >>=-eq-ok (or_invalid (environment.validate_bundle original)) _ h in
      let checked = >>-eq-ok (check_bundle environment trusted _ progress bundle) _ checks in
      let limited = >>-eq-ok (raise_if (exceeds limits (add progress bundle)) _) _ checked.1 in
      (bundle, valid, checked.0, raise_if-eq-ok _ limits_exceeded limited.0, limited.1)

  -- No more bundles leave the variables of the loop as they are.
  pub validate_bundles-nil :
      (trusted : KnowledgePublicationContext) (limits : IndexPublicationLimits)
      (progress last : Progress)
      → validate_bundles environment trusted (scope_of trusted) limits [] progress ≡ ok last
      → progress ≡ last
  unfolding validate_bundles
  validate_bundles-nil trusted limits progress last h = ok-injective h

  -- The context has been validated, the loop has returned, and the plan is made of both.
  pub build_plan-eq-ok :
      (context : KnowledgePublicationContext) (bundles : List PreparedKnowledgeBundle)
      (limits : IndexPublicationLimits) (plan : KnowledgePublicationPlan)
      → build_plan environment context bundles limits ≡ ok plan
      → (trusted : KnowledgePublicationContext) × (progress : Progress) × (or_untrusted
            (environment.validate_context context)
          ≡ ok trusted)
        × ((ltb limits.maximum_bundles_per_call (length bundles) || is_empty bundles) ≡ false)
        × (validate_bundles environment trusted (scope_of trusted) limits bundles (start)
            ≡ ok progress)
        × (plan_of environment trusted progress ≡ plan)
  unfolding build_plan
  build_plan-eq-ok context bundles limits plan h =
      let (trusted, valid, counted) =
        >>=-eq-ok (or_untrusted (environment.validate_context context)) _ h in
      let looped =
        >>-eq-ok
          (raise_if (ltb limits.maximum_bundles_per_call (length bundles) || is_empty bundles) _) _
          counted in
      let (progress, validated, planned) =
        >>=-eq-ok (validate_bundles environment trusted _ limits bundles (start)) _ looped.1 in
      (
        trusted,
        progress,
        valid,
        raise_if-eq-ok _ bundle_count_invalid looped.0,
        validated,
        ok-injective planned,
      )
