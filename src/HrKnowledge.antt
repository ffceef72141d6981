-- ===== src/HrKnowledge.antt =====
-- src/erp_ai/capabilities/hr_knowledge/: the knowledge search's models and its handler, which
-- verifies every match of the retrieval provider once more.
pub mod Laws
use Prim.Native.String.{count}
use ai_systems_try.Base.{
  ℕ, ◌+◌, String, Bool, true, false, not, ◌&&◌, ◌||◌, Option, none, some, List, [], ◌∷◌, map, ltb,
  leb, length, contains, is_subset, has_unique, ◌==◌, string_eq, nat_eq, option_eq, if◌then◌else◌,
  Except, ok, raise, ◌>>=◌, ◌>>◌, raise_if,
}
use ai_systems_try.Base.Text.{string_le}
use ai_systems_try.Context.{TrustedRequestContext, is_some}
use ai_systems_try.Capability.{restricted}
use ai_systems_try.Knowledge.{
  KnowledgeSourceType, product_documentation, customer_policy, KnowledgeRetrievalRequest,
  KnowledgeMatch, classification_rank,
}

pub record KnowledgeExcerpt : Type 0 where
  pub citation_id : String
  pub title : String
  pub section : String
  pub language : String
  pub source_type : KnowledgeSourceType
  pub document_version : String
  pub content : String

pub record SearchHrKnowledgeOutput : Type 0 where
  pub excerpts : List KnowledgeExcerpt

-- What leaves the handler: `_KnowledgeUnavailableError`, by its message, an exception of the provider
-- or the ValidationError of the request.
pub data KnowledgeUnavailable : Type 0 where
  provider_result_count_exceeded duplicate_chunks duplicate_citations : KnowledgeUnavailable
  combined_content_exceeded provider_order_invalid namespace_mismatch : KnowledgeUnavailable
  module_scope_mismatch permission_scope_mismatch purpose_scope_mismatch : KnowledgeUnavailable
  global_document_has_customer_scope customer_scope_mismatch : KnowledgeUnavailable
  legal_entity_scope_mismatch document_not_effective : KnowledgeUnavailable
  classification_unsupported provider_failed request_invalid : KnowledgeUnavailable

abbrev pub hr_namespace : String
hr_namespace = "hr"

abbrev pub max_results : ℕ
max_results = 5

abbrev pub max_combined_content : ℕ
max_combined_content = 12_000

-- `sum(len(match.content) for match in matches)`
abbrev pub combined_content : List KnowledgeMatch → ℕ
combined_content [] = 0
combined_content (match ∷ rest) = count match.content + combined_content rest

-- `(-previous.relevance_score, previous.chunk_id) > (-match.relevance_score, match.chunk_id)`
abbrev pub is_out_of_order : KnowledgeMatch → KnowledgeMatch → Bool
is_out_of_order previous match =
    ltb previous.relevance_score match.relevance_score
    || (previous.relevance_score == match.relevance_score
        && not (string_le previous.chunk_id match.chunk_id))

abbrev pub is_after_previous : Option KnowledgeMatch → KnowledgeMatch → Bool
is_after_previous none match = true
is_after_previous (some previous) match = not (is_out_of_order previous match)

abbrev pub is_past : ℕ → Option ℕ → Bool
is_past now none = false
is_past now (some end) = ltb end now

-- A global document has no customer, and any other the context's own.
check_customer_scope :
    KnowledgeSourceType → Option String → String → Except KnowledgeUnavailable (Unit {0})
check_customer_scope product_documentation customer own =
    raise_if (is_some customer) global_document_has_customer_scope
check_customer_scope customer_policy customer own =
    raise_if (not (customer == some own)) customer_scope_mismatch

-- The body of the loop over the matches.
check_match :
    TrustedRequestContext
    → Option KnowledgeMatch
    → KnowledgeMatch
    → Except KnowledgeUnavailable (Unit {0})
unfolding check_customer_scope
check_match context previous match = do
  raise_if (not (is_after_previous previous match)) provider_order_invalid
  raise_if (not (match.namespace == hr_namespace)) namespace_mismatch
  raise_if (not (is_subset match.required_modules_all context.enabled_modules))
      module_scope_mismatch
  raise_if (not (is_subset match.required_permissions_all context.permission_codes))
      permission_scope_mismatch
  raise_if (not (contains match.allowed_purposes context.purpose)) purpose_scope_mismatch
  check_customer_scope match.source_type match.customer_environment_id
      context.customer_environment_id
  raise_if (not (is_subset match.legal_entity_ids context.legal_entity_ids))
      legal_entity_scope_mismatch
  raise_if
      (ltb context.issued_at match.effective_from || is_past context.issued_at match.effective_to)
      document_not_effective
  raise_if (ltb (classification_rank restricted) (classification_rank match.data_classification))
      classification_unsupported

check_each :
    TrustedRequestContext
    → Option KnowledgeMatch
    → List KnowledgeMatch
    → Except KnowledgeUnavailable (Unit {0})
check_each context previous [] = ok tt
check_each context previous (match ∷ rest) = do
  check_match context previous match
  check_each context (some match) rest

-- `_validate_matches`
unfoldable pub validate_matches :
    TrustedRequestContext → List KnowledgeMatch → Except KnowledgeUnavailable (Unit {0})
unfolding check_match check_each
validate_matches context matches = do
  raise_if (ltb max_results (length matches)) provider_result_count_exceeded
  raise_if (not (has_unique (map (λ match. match.chunk_id) matches))) duplicate_chunks
  raise_if (not (has_unique (map (λ match. match.citation_id) matches))) duplicate_citations
  raise_if (ltb max_combined_content (combined_content matches)) combined_content_exceeded
  check_each context none matches

unfoldable pub to_excerpt : KnowledgeMatch → KnowledgeExcerpt
to_excerpt match = record {
  citation_id = match.citation_id;
  title = match.title;
  section = match.section;
  language = match.language;
  source_type = match.source_type;
  document_version = match.document_version;
  content = match.content;
}

unfoldable pub retrieval_request : TrustedRequestContext → String → KnowledgeRetrievalRequest
retrieval_request context query = record {
  namespace = hr_namespace;
  query = query;
  maximum_results = max_results;
  customer_environment_id = context.customer_environment_id;
  enabled_modules = context.enabled_modules;
  permission_codes = context.permission_codes;
  roles = context.roles;
  authorized_legal_entity_ids = context.legal_entity_ids;
  purpose = context.purpose;
  locale = context.locale;
  effective_at = context.issued_at;
}

abbrev pub or_failed :
    Option (List KnowledgeMatch) → Except KnowledgeUnavailable (List KnowledgeMatch)
or_failed none = raise provider_failed
or_failed (some matches) = ok matches

-- The lengths of a `LanguageCode`. The other constraints of KnowledgeRetrievalRequest hold of every
-- validated context and every validated query.
abbrev pub has_language_length : String → Bool
has_language_length code = leb 2 (count code) && leb (count code) 35

-- `execute`. The provider is a parameter; `none` stands for an exception of its own.
unfoldable pub execute :
    (KnowledgeRetrievalRequest → Option (List KnowledgeMatch))
    → TrustedRequestContext
    → String
    → Except KnowledgeUnavailable SearchHrKnowledgeOutput
execute retrieve context query = do
  raise_if (not (has_language_length context.locale)) request_invalid
  matches ← or_failed (retrieve (retrieval_request context query))
  validate_matches context matches
  ok (record { excerpts = map to_excerpt matches })
