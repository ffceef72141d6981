-- ===== src/Indexing/Bundles.antt =====
-- src/erp_ai/knowledge/indexing/publisher.py: the validation of one prepared bundle.
use ai_systems_try.Base.{
  ℕ, suc, Bool, true, not, ◌&&◌, List, [], ◌∷◌, length, ◌==◌, Eq, string_eq, nat_eq, option_eq,
  list_eq, Except, ok, raise, ◌>>◌, raise_if,
}
use ai_systems_try.Base.Sort.{string_ord, pair_ord}
use ai_systems_try.Capability.{DataClassification}
use ai_systems_try.Knowledge.{KnowledgeSourceType}
use ai_systems_try.Indexing.{
  PreparedDocumentManifest, Governance, PreparedKnowledgeChunk, PublicationError, ordering_invalid,
  chunk_totals_invalid, document_fingerprint_invalid, metadata_inconsistent,
  governance_inconsistent, chunk_fingerprint_invalid, citation_fingerprint_invalid,
}
use ai_systems_try.Indexing.Digest.{Environment, document_fingerprint, opaque_chunk_id}

DataClassification-discrete : Discrete DataClassification
DataClassification-discrete = hlevel

KnowledgeSourceType-discrete : Discrete KnowledgeSourceType
KnowledgeSourceType-discrete = hlevel

instance unfoldable pub source_type_eq : Eq KnowledgeSourceType
unfolding KnowledgeSourceType-discrete
source_type_eq = record { dec = KnowledgeSourceType-discrete }

Governance-discrete : Discrete Governance
Governance-discrete = hlevel (
  string_eq.dec,
  nat_eq.dec,
  (list_eq ⦃e = string_eq⦄).dec,
  (option_eq ⦃e = nat_eq⦄).dec,
  DataClassification-discrete,
)

instance unfoldable pub governance_eq : Eq Governance
unfolding Governance-discrete DataClassification-discrete
governance_eq = record { dec = Governance-discrete }

-- `tuple(chunk.chunk_ordinal for ...) == tuple(range(...))`
abbrev pub has_ordinals : ℕ → List PreparedKnowledgeChunk → Bool
has_ordinals n [] = true
has_ordinals n (chunk ∷ rest) = chunk.chunk_ordinal == n && has_ordinals (suc n) rest

abbrev pub is_of_manifest : PreparedDocumentManifest → PreparedKnowledgeChunk → Bool
is_of_manifest manifest chunk =
    chunk.document_id == manifest.document_id
    && chunk.document_version == manifest.document_version
    && chunk.namespace == manifest.namespace
    && chunk.source_type == manifest.source_type
    && chunk.customer_environment_id == manifest.customer_environment_id

module _ (environment : Environment) where
  unfoldable pub check_chunks :
      PreparedDocumentManifest
      → Governance
      → List PreparedKnowledgeChunk
      → Except PublicationError (Unit {0})
  check_chunks manifest invariant [] = ok tt
  check_chunks manifest invariant (chunk ∷ rest) = do
    raise_if (not (is_of_manifest manifest chunk)) metadata_inconsistent
    raise_if (not (chunk.governance == invariant)) governance_inconsistent
    raise_if
        (not (
          chunk.chunk_id
          == opaque_chunk_id environment "chk" manifest.document_fingerprint chunk.chunk_ordinal))
        chunk_fingerprint_invalid
    raise_if
        (not (
          chunk.citation_id
          == opaque_chunk_id environment "cite" manifest.document_fingerprint chunk.chunk_ordinal))
        citation_fingerprint_invalid
    check_chunks manifest invariant rest

  -- `_validate_chunk_metadata`; a bundle without chunks has been refused before its first is taken.
  unfoldable pub validate_chunk_metadata :
      PreparedDocumentManifest
      → ℕ
      → List PreparedKnowledgeChunk
      → Except PublicationError (Unit {0})
  unfolding check_chunks
  validate_chunk_metadata manifest total [] = raise chunk_totals_invalid
  validate_chunk_metadata manifest total (first ∷ rest) = do
    raise_if (not (has_ordinals 0 (first ∷ rest))) ordering_invalid
    raise_if (not (total == length (first ∷ rest))) chunk_totals_invalid
    raise_if (not (manifest.document_fingerprint == document_fingerprint environment manifest))
        document_fingerprint_invalid
    check_chunks manifest first.governance (first ∷ rest)
