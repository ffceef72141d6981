-- ===== src/Indexing.antt =====
-- src/erp_ai/knowledge/indexing/models.py and src/erp_ai/knowledge/ingestion/models.py: prepared
-- bundles and the contracts of a publication, after validation. A UUID is its canonical text; the
-- provenance is its JSON dump.
pub mod Digest
pub mod Bundles
pub mod Plan
pub mod Publisher
use ai_systems_try.Base.{ℕ, String, Option, List}
use ai_systems_try.Json.{Json}
use ai_systems_try.Capability.{DataClassification}
use ai_systems_try.Knowledge.{KnowledgeSourceType}

pub record PreparedDocumentManifest : Type 0 where
  pub document_id : String
  pub document_version : String
  pub namespace : String
  pub source_type : KnowledgeSourceType
  pub customer_environment_id : Option String
  pub source_provenance : Option Json
  pub normalized_content_sha256 : String
  pub governance_sha256 : String
  pub document_fingerprint : String
  pub supersedes_version : Option String

-- The fields that all chunks of a document share.
pub record Governance : Type 0 where
  pub required_modules_all : List String
  pub required_permissions_all : List String
  pub allowed_purposes : List String
  pub legal_entity_ids : List String
  pub data_classification : DataClassification
  pub language : String
  pub title : String
  pub effective_from : ℕ
  pub effective_to : Option ℕ

pub record PreparedKnowledgeChunk : Type 0 where
  pub chunk_id : String
  pub citation_id : String
  pub document_id : String
  pub document_version : String
  pub chunk_ordinal : ℕ
  pub namespace : String
  pub section_key : String
  pub heading : String
  pub source_type : KnowledgeSourceType
  pub customer_environment_id : Option String
  pub governance : Governance
  pub content : String

pub data PreparationDisposition : Type 0 where
  new_document idempotent superseding_version : PreparationDisposition

pub record PreparedKnowledgeBundle : Type 0 where
  pub manifest : PreparedDocumentManifest
  pub chunks : List PreparedKnowledgeChunk
  pub disposition : PreparationDisposition
  pub total_normalized_utf8_bytes : ℕ
  pub total_chunk_count : ℕ

pub record KnowledgeIndexScope : Type 0 where
  pub namespace : String
  pub customer_environment_id : String

pub record KnowledgePublicationContext : Type 0 where
  pub operation_id : String
  pub request_id : String
  pub customer_environment_id : String
  pub actor_id : String
  pub namespace : String
  pub installed_modules : List String
  pub authorization_snapshot_id : String
  pub issued_at : ℕ

-- A candidate: its status is always `CANDIDATE`, and its contract version 1.
pub record KnowledgeGenerationManifest : Type 0 where
  pub generation_id : String
  pub scope : KnowledgeIndexScope
  pub generation_digest : String
  pub document_count : ℕ
  pub chunk_count : ℕ
  pub total_normalized_bytes : ℕ

-- The event of a publication, whose action is `knowledge.publish`, whose outcome is `succeeded` and
-- whose previous generation is none.
pub record KnowledgePublicationAuditOutboxEvent : Type 0 where
  pub outbox_id : String
  pub operation_id : String
  pub request_id : String
  pub customer_environment_id : String
  pub actor_id : String
  pub namespace : String
  pub activated_generation_id : String
  pub generation_digest : String

pub record KnowledgePublicationPlan : Type 0 where
  pub context : KnowledgePublicationContext
  pub manifest : KnowledgeGenerationManifest
  pub bundles : List PreparedKnowledgeBundle
  pub operation_digest : String
  pub outbox_event : KnowledgePublicationAuditOutboxEvent

pub record IndexPublicationLimits : Type 0 where
  pub maximum_documents : ℕ
  pub maximum_chunks : ℕ
  pub maximum_normalized_bytes : ℕ
  pub maximum_bundles_per_call : ℕ

-- KnowledgePublicationError, by its messages.
pub data PublicationError : Type 0 where
  bundle_invalid ordering_invalid chunk_totals_invalid : PublicationError
  document_fingerprint_invalid metadata_inconsistent governance_inconsistent : PublicationError
  chunk_fingerprint_invalid citation_fingerprint_invalid context_invalid : PublicationError
  bundle_count_invalid conflicting_versions duplicate_documents : PublicationError
  duplicate_chunk_ids duplicate_citation_ids namespace_out_of_scope : PublicationError
  global_document_scoped customer_out_of_scope module_unavailable : PublicationError
  document_expired classification_unsupported limits_exceeded : PublicationError
