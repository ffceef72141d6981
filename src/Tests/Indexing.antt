-- ===== src/Tests/Indexing.antt =====
-- A publication of two documents, supplied out of order.
use ai_systems_try.Base.{
  false, any, ℕ, ◌≡◌, refl, sym, ap, arith, ok-injective, Distinct, if◌then◌else◌, ◌==◌, string_eq,
  String, none, some, List, [], ◌∷◌, Except, ok, raise, Option,
}
use ai_systems_try.Json.{Json, text, object, field}
use ai_systems_try.Capability.{internal}
use ai_systems_try.Knowledge.{product_documentation}
use ai_systems_try.Indexing.{
  PreparedDocumentManifest, Governance, PreparedKnowledgeChunk, PreparedKnowledgeBundle,
  KnowledgePublicationContext, KnowledgePublicationPlan, IndexPublicationLimits, new_document,
  PublicationError, duplicate_documents, limits_exceeded, document_expired,
}
use ai_systems_try.Indexing.Digest.{Environment}
use ai_systems_try.Indexing.Plan.{Progress, start, add, plan_of, build_plan}
use ai_systems_try.Indexing.Plan.Retry.{later, is_stale}
use ai_systems_try.Indexing.Plan.Distinct.{document_ids, build_plan-Distinct}
use ai_systems_try.Indexing.Publisher.{
  KnowledgePublicationResult, KnowledgeOperationResult, KnowledgeIndexRepository, published,
  of_publication, publish, KnowledgeRollbackResult, KnowledgeRollbackRequest, of_rollback,
  rolled_back, rollback, request_of,
}
use ai_systems_try.Indexing.Publisher.Laws.{Stores, publish-again, StoresRollbacks, rollback-again}
use ai_systems_try.Indexing.Plan.Laws.{IsSound, build_plan-IsSound}

-- The text of the first field, in place of the JSON text.
abbrev first_text : Json → String
first_text (object (field key (text value) rest)) = value
first_text _ = "value"

abbrev environment : Environment
environment = record {
  canonical = first_text;
  sha256 = λ text. text;
  validate_context = λ context. some context;
  validate_bundle = λ bundle. some bundle;
  now = 100;
  generation_id = "generation-1";
  outbox_id = "outbox-1";
}

abbrev governance : Governance
governance = record {
  required_modules_all = "hr" ∷ [];
  required_permissions_all = "hr.read" ∷ [];
  allowed_purposes = "hr_support" ∷ [];
  legal_entity_ids = [];
  data_classification = internal;
  language = "en";
  title = "Leave policy";
  effective_from = 10;
  effective_to = some 200;
}

abbrev chunk : String → String → String → PreparedKnowledgeChunk
chunk document_id chunk_id citation_id = record {
  chunk_id = chunk_id;
  citation_id = citation_id;
  document_id = document_id;
  document_version = "1.0.0";
  chunk_ordinal = 0;
  namespace = "hr.leave";
  section_key = "overview";
  heading = "Overview";
  source_type = product_documentation;
  customer_environment_id = none;
  governance = governance;
  content = "Employees may take leave.";
}

abbrev manifest : String → String → PreparedDocumentManifest
manifest document_id content = record {
  document_id = document_id;
  document_version = "1.0.0";
  namespace = "hr.leave";
  source_type = product_documentation;
  customer_environment_id = none;
  source_provenance = none;
  normalized_content_sha256 = content;
  governance_sha256 = "governance";
  document_fingerprint = content;
  supersedes_version = none;
}

abbrev bundle : PreparedDocumentManifest → PreparedKnowledgeChunk → PreparedKnowledgeBundle
bundle manifest chunk = record {
  manifest = manifest;
  chunks = chunk ∷ [];
  disposition = new_document;
  total_normalized_utf8_bytes = 25;
  total_chunk_count = 1;
}

abbrev second_bundle : PreparedKnowledgeBundle
second_bundle =
    bundle (manifest "document-2" "content-2") (chunk "document-2" "chk_content-2" "cite_content-2")

abbrev first_bundle : PreparedKnowledgeBundle
first_bundle =
    bundle (manifest "document-1" "content-1") (chunk "document-1" "chk_content-1" "cite_content-1")

abbrev context : KnowledgePublicationContext
context = record {
  operation_id = "operation-1";
  request_id = "request-1";
  customer_environment_id = "customer-1";
  actor_id = "actor-1";
  namespace = "hr.leave";
  installed_modules = "hr" ∷ [];
  authorization_snapshot_id = "snapshot-1";
  issued_at = 90;
}

abbrev limits : IndexPublicationLimits
limits = record {
  maximum_documents = 2;
  maximum_chunks = 2;
  maximum_normalized_bytes = 50;
  maximum_bundles_per_call = 3;
}

abbrev progress : Progress
progress = add (add (start) second_bundle) first_bundle

abbrev plan : KnowledgePublicationPlan
plan = plan_of environment context progress

publishes : build_plan environment context (second_bundle ∷ first_bundle ∷ []) limits ≡ ok plan
unfolding build_plan ai_systems_try.Indexing.Plan.validate_bundles
    ai_systems_try.Indexing.Plan.check_bundle ai_systems_try.Base.Dict.get
    ai_systems_try.Indexing.Bundles.validate_chunk_metadata ai_systems_try.Base.nat_eq
    ai_systems_try.Base.string_eq ai_systems_try.Indexing.Bundles.source_type_eq
    ai_systems_try.Base.option_eq ai_systems_try.Indexing.Bundles.governance_eq
    ai_systems_try.Base.list_eq ai_systems_try.Base.Dict.insert
publishes = refl

orders : plan.bundles ≡ first_bundle ∷ second_bundle ∷ []
unfolding ai_systems_try.Base.Sort.sorted ai_systems_try.Base.Text.string_le
orders = refl

refuses_duplicates :
    build_plan environment context (first_bundle ∷ first_bundle ∷ []) limits
    ≡ raise duplicate_documents
unfolding build_plan ai_systems_try.Indexing.Plan.validate_bundles
    ai_systems_try.Indexing.Plan.check_bundle ai_systems_try.Base.Dict.get
    ai_systems_try.Indexing.Bundles.validate_chunk_metadata ai_systems_try.Base.nat_eq
    ai_systems_try.Base.string_eq ai_systems_try.Indexing.Bundles.source_type_eq
    ai_systems_try.Base.option_eq ai_systems_try.Indexing.Bundles.governance_eq
    ai_systems_try.Base.list_eq ai_systems_try.Base.Dict.insert
refuses_duplicates = refl

build_plan-IsSound_example : IsSound environment context limits plan
build_plan-IsSound_example =
    build_plan-IsSound environment context (second_bundle ∷ first_bundle ∷ []) limits plan publishes

build_plan-Distinct_example : Distinct (document_ids plan.bundles)
build_plan-Distinct_example =
    build_plan-Distinct environment context (second_bundle ∷ first_bundle ∷ []) limits plan
      publishes

-- A repository that keeps the last result of a commit, under its operation.
abbrev get_result : Option KnowledgePublicationResult → String → Option KnowledgeOperationResult
get_result none id = none
get_result (some kept) id = if id == kept.operation_id then some (of_publication kept) else none

abbrev result_of : KnowledgePublicationPlan → Option String → KnowledgePublicationResult
result_of plan expected = record {
  operation_id = plan.context.operation_id;
  scope = plan.manifest.scope;
  generation_id = plan.manifest.generation_id;
  previous_generation_id = expected;
  generation_digest = plan.manifest.generation_digest;
  operation_digest = plan.operation_digest;
  disposition = published;
}

abbrev repository : KnowledgeIndexRepository String (Option KnowledgePublicationResult)
repository = record {
  get_operation_result = λ kept id. ok (get_result kept id);
  commit_generation =
      λ kept plan expected. (ok (result_of plan expected), some (result_of plan expected));
  commit_rollback = λ kept request expected. (raise "no earlier generation", kept);
}

repository-Stores : Stores repository
repository-Stores plan expected s after result h =
    rw (sym (ap (λ x. x.1) h), sym (ok-injective (ap (λ x. x.0) h))) (ground arith, refl)

publishes_once :
    publish repository environment context (second_bundle ∷ first_bundle ∷ []) none limits none
    ≡ (ok (result_of plan none), some (result_of plan none))
unfolding publish build_plan ai_systems_try.Indexing.Plan.validate_bundles
    ai_systems_try.Indexing.Plan.check_bundle ai_systems_try.Base.Dict.get
    ai_systems_try.Indexing.Bundles.validate_chunk_metadata ai_systems_try.Base.nat_eq string_eq
    ai_systems_try.Indexing.Bundles.source_type_eq ai_systems_try.Base.option_eq
    ai_systems_try.Indexing.Bundles.governance_eq ai_systems_try.Base.list_eq
    ai_systems_try.Base.Dict.insert
publishes_once = refl

-- A later call has another time and other UUIDs.
abbrev retrying : Environment
retrying = later environment 150 "generation-2" "outbox-2"

stays_fresh : any (is_stale environment 150 "generation-2" "outbox-2") plan.bundles ≡ false
unfolding ai_systems_try.Base.Sort.sorted ai_systems_try.Base.Text.string_le
stays_fresh = refl

publish-again_example :
    publish repository retrying context
      (second_bundle ∷ first_bundle ∷ [])
      (some "other")
      limits
      (some (result_of plan none))
    ≡ (ok (result_of plan none), some (result_of plan none))
publish-again_example =
    publish-again repository repository-Stores environment 150 "generation-2" "outbox-2" context
      (second_bundle ∷ first_bundle ∷ []) none (some "other") limits none
      (some (result_of plan none)) (result_of plan none) plan publishes stays_fresh publishes_once

-- A repository that keeps the last result of a rollback.
abbrev get_rollback : Option KnowledgeRollbackResult → String → Option KnowledgeOperationResult
get_rollback none id = none
get_rollback (some kept) id = if id == kept.operation_id then some (of_rollback kept) else none

abbrev rollback_result_of : KnowledgeRollbackRequest → String → KnowledgeRollbackResult
rollback_result_of request expected = record {
  operation_id = request.context.operation_id;
  scope = request.scope;
  activated_generation_id = request.target_generation_id;
  previous_generation_id = expected;
  generation_digest = "generation-0";
  operation_digest = request.operation_digest;
  disposition = rolled_back;
}

abbrev rollback_repository : KnowledgeIndexRepository String (Option KnowledgeRollbackResult)
rollback_repository = record {
  get_operation_result = λ kept id. ok (get_rollback kept id);
  commit_generation = λ kept plan expected. (raise "read only", kept);
  commit_rollback = λ kept request expected.
      (ok (rollback_result_of request expected), some (rollback_result_of request expected));
}

rollback_repository-Stores : StoresRollbacks rollback_repository
rollback_repository-Stores request expected s after result h =
    rw (sym (ap (λ x. x.1) h), sym (ok-injective (ap (λ x. x.0) h))) (ground arith, refl)

abbrev rolled : KnowledgeRollbackResult
rolled =
    rollback_result_of (request_of rollback_repository environment context "generation-0")
      "generation-1"

rolls_back :
    rollback rollback_repository environment context "generation-0" "generation-1" none
    ≡ (ok rolled, some rolled)
unfolding rollback
rolls_back = refl

rollback-again_example :
    rollback rollback_repository retrying context "generation-0" "other" (some rolled)
    ≡ (ok rolled, some rolled)
rollback-again_example =
    rollback-again rollback_repository rollback_repository-Stores environment 150 "generation-2"
      "outbox-2" context "generation-0" "generation-1" "other" none (some rolled) rolled rolls_back
