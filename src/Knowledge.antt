-- ===== src/Knowledge.antt =====
-- src/erp_ai/knowledge/models.py, after validation: retrieval requests and provider matches. A
-- relevance score is a number of fixed steps between 0 and 1, of which only the order is used.
use ai_systems_try.Base.{ℕ, String, Option, List}
use ai_systems_try.Capability.{DataClassification, public, internal, restricted, highly_restricted}

pub data KnowledgeSourceType : Type 0 where
  product_documentation customer_policy : KnowledgeSourceType

pub record KnowledgeRetrievalRequest : Type 0 where
  pub namespace : String
  pub query : String
  pub maximum_results : ℕ
  pub customer_environment_id : String
  pub enabled_modules : List String
  pub permission_codes : List String
  pub roles : List String
  pub authorized_legal_entity_ids : List String
  pub purpose : String
  pub locale : String
  pub effective_at : ℕ

pub record KnowledgeMatch : Type 0 where
  pub chunk_id : String
  pub document_id : String
  pub citation_id : String
  pub namespace : String
  pub source_type : KnowledgeSourceType
  pub customer_environment_id : Option String
  pub required_modules_all : List String
  pub required_permissions_all : List String
  pub allowed_purposes : List String
  pub legal_entity_ids : List String
  pub data_classification : DataClassification
  pub language : String
  pub title : String
  pub section : String
  pub document_version : String
  pub effective_from : ℕ
  pub effective_to : Option ℕ
  pub content : String
  pub relevance_score : ℕ

-- The rank tables of the handler, the hybrid provider and the orchestrator.
abbrev pub classification_rank : DataClassification → ℕ
classification_rank public = 0
classification_rank internal = 1
classification_rank restricted = 2
classification_rank highly_restricted = 3
