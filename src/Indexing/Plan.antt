-- ===== src/Indexing/Plan.antt =====
-- src/erp_ai/knowledge/indexing/publisher.py: the plan of a publication.
pub mod Steps
pub mod Laws
pub mod Retry
pub mod Distinct
use ai_systems_try.Base.{
  ℕ, suc, ◌+◌, String, Bool, true, false, not, ◌&&◌, ◌||◌, Option, none, some, List, [], ◌∷◌, ◌++◌,
  map, any, ltb, length, sum_by, contains, is_subset, to_set, ◌==◌, Eq, string_eq, nat_eq,
  option_eq, list_eq, if◌then◌else◌, Except, ok, raise, ◌>>=◌, ◌>>◌, raise_if,
}
use ai_systems_try.Base.Dict
use ai_systems_try.Base.Dict.{Dict}
use ai_systems_try.Base.Sort.{sorted, string_ord, pair_ord}
use ai_systems_try.Context.{is_some}
use ai_systems_try.Capability.{DataClassification, highly_restricted}
use ai_systems_try.Capability.Access.{is_empty}
use ai_systems_try.Json.{Json, null, text, integer, object, Fields, end, field}
use Prim.Native.String as Text
use ai_systems_try.Knowledge.{KnowledgeSourceType, product_documentation, customer_policy}
use ai_systems_try.Indexing.{
  KnowledgePublicationAuditOutboxEvent, PreparedDocumentManifest, Governance,
  PreparedKnowledgeChunk, PreparedKnowledgeBundle, KnowledgeIndexScope, KnowledgePublicationContext,
  KnowledgeGenerationManifest, KnowledgePublicationPlan, IndexPublicationLimits, PublicationError,
  bundle_invalid, ordering_invalid, chunk_totals_invalid, document_fingerprint_invalid,
  metadata_inconsistent, governance_inconsistent, chunk_fingerprint_invalid,
  citation_fingerprint_invalid, context_invalid, bundle_count_invalid, conflicting_versions,
  duplicate_documents, duplicate_chunk_ids, duplicate_citation_ids, namespace_out_of_scope,
  global_document_scoped, customer_out_of_scope, module_unavailable, document_expired,
  classification_unsupported, limits_exceeded,
}
use ai_systems_try.Indexing.Digest.{Environment, digest_of, generation_digest, scope_dump}
use ai_systems_try.Indexing.Bundles.{source_type_eq, governance_eq, validate_chunk_metadata}

-- The loop over the chunks that looks for IDs of earlier documents.
check_ids :
    List String → List String → List PreparedKnowledgeChunk → Except PublicationError (Unit {0})
check_ids chunk_ids citation_ids [] = ok tt
check_ids chunk_ids citation_ids (chunk ∷ rest) = do
  raise_if (contains chunk_ids chunk.chunk_id) duplicate_chunk_ids
  raise_if (contains citation_ids chunk.citation_id) duplicate_citation_ids
  check_ids chunk_ids citation_ids rest

-- The variables of the loop over the bundles.
pub record Progress : Type 0 where
  pub validated : List PreparedKnowledgeBundle
  pub document_versions : Dict String String
  pub chunk_ids : List String
  pub citation_ids : List String
  pub total_chunks : ℕ
  pub total_bytes : ℕ

abbrev pub start : Progress
start = record {
  validated = [];
  document_versions = [];
  chunk_ids = [];
  citation_ids = [];
  total_chunks = 0;
  total_bytes = 0;
}

check_version : Option String → String → Except PublicationError (Unit {0})
check_version none version = ok tt
check_version (some previous) version =
    raise (if previous == version then duplicate_documents else conflicting_versions)

abbrev pub is_highly_restricted : DataClassification → Bool
is_highly_restricted highly_restricted = true
is_highly_restricted _ = false

check_source :
    KnowledgeSourceType → Option String → KnowledgeIndexScope → Except PublicationError (Unit {0})
check_source product_documentation customer scope =
    raise_if (is_some customer) global_document_scoped
check_source customer_policy customer scope =
    raise_if (not (customer == some scope.customer_environment_id)) customer_out_of_scope

abbrev pub modules_of : List PreparedKnowledgeChunk → List String
modules_of [] = []
modules_of (first ∷ rest) = first.governance.required_modules_all

abbrev pub add : Progress → PreparedKnowledgeBundle → Progress
add progress bundle = record {
  validated = progress.validated ++ bundle ∷ [];
  document_versions =
      Dict.insert bundle.manifest.document_id bundle.manifest.document_version
        progress.document_versions;
  chunk_ids = map (λ chunk. chunk.chunk_id) bundle.chunks ++ progress.chunk_ids;
  citation_ids = map (λ chunk. chunk.citation_id) bundle.chunks ++ progress.citation_ids;
  total_chunks = progress.total_chunks + length bundle.chunks;
  total_bytes = progress.total_bytes + bundle.total_normalized_utf8_bytes;
}

abbrev pub exceeds : IndexPublicationLimits → Progress → Bool
exceeds limits progress =
    ltb limits.maximum_documents (length progress.validated)
    || ltb limits.maximum_chunks progress.total_chunks
    || ltb limits.maximum_normalized_bytes progress.total_bytes

abbrev pub or_invalid :
    Option PreparedKnowledgeBundle → Except PublicationError PreparedKnowledgeBundle
or_invalid none = raise bundle_invalid
or_invalid (some bundle) = ok bundle

abbrev pub or_untrusted :
    Option KnowledgePublicationContext → Except PublicationError KnowledgePublicationContext
or_untrusted none = raise context_invalid
or_untrusted (some trusted) = ok trusted

abbrev pub scope_of : KnowledgePublicationContext → KnowledgeIndexScope
scope_of trusted = record {
  namespace = trusted.namespace;
  customer_environment_id = trusted.customer_environment_id;
}

abbrev pub bundle_key : PreparedKnowledgeBundle → String × String
bundle_key bundle = (bundle.manifest.document_id, bundle.manifest.document_version)

module _ (environment : Environment) where
  open environment use {now}

  abbrev pub is_expired : PreparedKnowledgeChunk → Bool
  is_expired chunk = elim chunk.governance.effective_to [
    | none ↦ false
    | some until ↦ not (ltb now until)
  ]

  -- The tests on one validated bundle.
  unfoldable pub check_bundle :
      KnowledgePublicationContext
      → KnowledgeIndexScope
      → Progress
      → PreparedKnowledgeBundle
      → Except PublicationError (Unit {0})
  unfolding check_version check_ids check_source
  check_bundle trusted scope progress bundle = do
    check_version (Dict.get bundle.manifest.document_id progress.document_versions)
        bundle.manifest.document_version
    check_ids progress.chunk_ids progress.citation_ids bundle.chunks
    validate_chunk_metadata environment bundle.manifest bundle.total_chunk_count bundle.chunks
    raise_if (not (bundle.manifest.namespace == scope.namespace)) namespace_out_of_scope
    check_source bundle.manifest.source_type bundle.manifest.customer_environment_id scope
    raise_if (not (is_subset (modules_of bundle.chunks) trusted.installed_modules))
        module_unavailable
    raise_if (any is_expired bundle.chunks) document_expired
    raise_if
        (any (λ chunk. is_highly_restricted chunk.governance.data_classification) bundle.chunks)
        classification_unsupported

  -- The loop over the supplied bundles.
  unfoldable pub validate_bundles :
      KnowledgePublicationContext
      → KnowledgeIndexScope
      → IndexPublicationLimits
      → List PreparedKnowledgeBundle
      → Progress
      → Except PublicationError Progress
  validate_bundles trusted scope limits [] progress = ok progress
  validate_bundles trusted scope limits (original ∷ rest) progress = do
    bundle ← or_invalid (environment.validate_bundle original)
    check_bundle trusted scope progress bundle
    raise_if (exceeds limits (add progress bundle)) limits_exceeded
    validate_bundles trusted scope limits rest (add progress bundle)

  abbrev pub plan_of : KnowledgePublicationContext → Progress → KnowledgePublicationPlan
  plan_of trusted progress =
      let scope = scope_of trusted in
      let ordered = sorted bundle_key progress.validated in
      let digest = generation_digest environment scope ordered in
      record {
        context = trusted;
        manifest = record {
          generation_id = environment.generation_id;
          scope = scope;
          generation_digest = digest;
          document_count = length ordered;
          chunk_count = progress.total_chunks;
          total_normalized_bytes = progress.total_bytes;
        };
        bundles = ordered;
        operation_digest =
            digest_of environment
              (object (field "scope" (scope_dump scope) (field "generation" (text digest) end)));
        outbox_event = record {
          outbox_id = environment.outbox_id;
          operation_id = trusted.operation_id;
          request_id = trusted.request_id;
          customer_environment_id = trusted.customer_environment_id;
          actor_id = trusted.actor_id;
          namespace = trusted.namespace;
          activated_generation_id = environment.generation_id;
          generation_digest = digest;
        };
      }

  unfoldable pub build_plan :
      KnowledgePublicationContext
      → List PreparedKnowledgeBundle
      → IndexPublicationLimits
      → Except PublicationError KnowledgePublicationPlan
  build_plan context bundles limits = do
    trusted ← or_untrusted (environment.validate_context context)
    raise_if (ltb limits.maximum_bundles_per_call (length bundles) || is_empty bundles)
        bundle_count_invalid
    progress ← validate_bundles trusted (scope_of trusted) limits bundles start
    ok (plan_of trusted progress)
