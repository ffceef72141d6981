-- ===== src/Indexing/Plan/Distinct.antt =====
-- src/erp_ai/knowledge/indexing/publisher.py: the documents of a publication plan differ.
use ai_systems_try.Base.{
  ◌≡◌, refl, subst, String, false, ◌||◌, Option, none, some, List, [], ◌∷◌, ◌++◌, map, contains,
  Distinct, ◌==◌, string_eq, nat_eq, arith, ok, >>-eq-ok,
}
use ai_systems_try.Base.Dict
use ai_systems_try.Base.Sort.{string_ord, pair_ord}
use ai_systems_try.Base.Sort.Keyed.{map-sorted-Distinct}
use ai_systems_try.Context.{is_some}
use ai_systems_try.Indexing.{
  PreparedKnowledgeBundle, KnowledgePublicationContext, KnowledgePublicationPlan,
  IndexPublicationLimits,
}
use ai_systems_try.Indexing.Digest.{Environment}
use ai_systems_try.Indexing.Plan.{
  Progress, start, add, bundle_key, check_bundle, validate_bundles, scope_of, build_plan,
  check_version,
}
use ai_systems_try.Indexing.Plan.Steps.{
  validate_bundles-nil, validate_bundles-cons, build_plan-eq-ok,
}

abbrev pub document_ids : List PreparedKnowledgeBundle → List String
document_ids = map (λ bundle. bundle.manifest.document_id)

contains-document_ids :
    (id : String) (bundles : List PreparedKnowledgeBundle) (last : PreparedKnowledgeBundle)
    → contains (document_ids (bundles ++ last ∷ [])) id
      ≡ (contains (document_ids bundles) id || id == last.manifest.document_id)
contains-document_ids id [] last = ground arith
contains-document_ids id (bundle ∷ bundles) last =
    ground (arith, contains-document_ids id bundles last)

append-Distinct :
    (bundles : List PreparedKnowledgeBundle) (last : PreparedKnowledgeBundle)
    → contains (document_ids bundles) last.manifest.document_id ≡ false
    → Distinct (document_ids bundles)
    → Distinct (document_ids (bundles ++ last ∷ []))
append-Distinct [] last h d = (refl, tt)
append-Distinct (bundle ∷ bundles) last h d = (
  ground (arith, contains-document_ids bundle.manifest.document_id bundles last, d.0),
  append-Distinct bundles last (ground arith) d.1,
)

module _ (environment : Environment) where
  -- The dict has the IDs of the validated bundles, which differ.
  abbrev IsRecorded : Progress → Type 0
  IsRecorded progress =
      ((id : String)
        → contains (document_ids progress.validated) id
          ≡ is_some (Dict.get id progress.document_versions))
      × Distinct (document_ids progress.validated)

  check_version-eq-ok :
      (previous : Option String) (version : String)
      → check_version previous version ≡ ok tt
      → is_some previous ≡ false
  unfolding check_version
  check_version-eq-ok none version h = refl
  check_version-eq-ok (some previous) version h = cc

  add-IsRecorded :
      (progress : Progress) (bundle : PreparedKnowledgeBundle)
      → IsRecorded progress
      → is_some (Dict.get bundle.manifest.document_id progress.document_versions) ≡ false
      → IsRecorded (add progress bundle)
  add-IsRecorded progress bundle r h = (
    λ id. ground (
      arith,
      contains-document_ids id progress.validated bundle,
      r.0 id,
      Dict.get-insert id bundle.manifest.document_id bundle.manifest.document_version
          progress.document_versions,
    ),
    append-Distinct progress.validated bundle (ground (arith, r.0 bundle.manifest.document_id)) r.1,
  )

  check_bundle-eq-ok :
      (trusted : KnowledgePublicationContext) (progress : Progress)
      (bundle : PreparedKnowledgeBundle)
      → check_bundle environment trusted (scope_of trusted) progress bundle ≡ ok tt
      → is_some (Dict.get bundle.manifest.document_id progress.document_versions) ≡ false
  unfolding check_bundle
  check_bundle-eq-ok trusted progress bundle h =
      let previous = Dict.get bundle.manifest.document_id progress.document_versions in
      let version = >>-eq-ok (check_version previous bundle.manifest.document_version) _ h in
      check_version-eq-ok previous bundle.manifest.document_version version.0

  start-IsRecorded : IsRecorded (start)
  unfolding Dict.get
  start-IsRecorded = (λ id. refl, tt)

  validate_bundles-IsRecorded :
      (trusted : KnowledgePublicationContext) (limits : IndexPublicationLimits)
      (bundles : List PreparedKnowledgeBundle) (progress last : Progress)
      → IsRecorded progress
      → validate_bundles environment trusted (scope_of trusted) limits bundles progress ≡ ok last
      → IsRecorded last
  validate_bundles-IsRecorded trusted limits [] progress last r h =
      subst IsRecorded (validate_bundles-nil environment trusted limits progress last h) r
  validate_bundles-IsRecorded trusted limits (original ∷ rest) progress last r h =
      let (bundle, valid, checked, limited, looped) =
        validate_bundles-cons environment trusted limits original rest progress last h in
      validate_bundles-IsRecorded trusted limits rest (add progress bundle) last
        (add-IsRecorded progress bundle r (check_bundle-eq-ok trusted progress bundle checked))
        looped

  -- The documents of a plan have different IDs.
  pub build_plan-Distinct :
      (context : KnowledgePublicationContext) (bundles : List PreparedKnowledgeBundle)
      (limits : IndexPublicationLimits) (plan : KnowledgePublicationPlan)
      → build_plan environment context bundles limits ≡ ok plan
      → Distinct (document_ids plan.bundles)
  build_plan-Distinct context bundles limits plan h =
      let (trusted, progress, valid, counted, validated, planned) =
        build_plan-eq-ok environment context bundles limits plan h in
      let recorded =
        validate_bundles-IsRecorded trusted limits bundles (start) progress start-IsRecorded
          validated in
      subst (λ made. Distinct (document_ids made.bundles)) planned
        (map-sorted-Distinct (bundle_key) (λ bundle. bundle.manifest.document_id) progress.validated
          recorded.1)
