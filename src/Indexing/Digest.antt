-- ===== src/Indexing/Digest.antt =====
-- src/erp_ai/knowledge/indexing/publisher.py: the digests of bundles and of a generation. The JSON
-- writer and SHA-256 are parameters.
use ai_systems_try.Base.{
  ℕ, String, false, Option, none, some, List, [], ◌∷◌, length, sum_by, string_eq, nat_eq, option_eq,
  list_eq,
}
use ai_systems_try.Base.Sort.{string_ord, pair_ord}
use ai_systems_try.Json.{Json, null, text, integer, object, end, field}
use Prim.Native.String as Text
use ai_systems_try.Indexing.{
  PreparedDocumentManifest, PreparedKnowledgeChunk, PreparedKnowledgeBundle, KnowledgeIndexScope,
  KnowledgePublicationContext,
}

-- What a call uses of other code: the text that json.dumps writes with sorted keys and no spaces,
-- SHA-256 in hexadecimal, the validation of the two models, the clock and the two UUIDs.
pub record Environment : Type 0 where
  pub canonical : Json → String
  pub sha256 : String → String
  pub validate_context : KnowledgePublicationContext → Option KnowledgePublicationContext
  pub validate_bundle : PreparedKnowledgeBundle → Option PreparedKnowledgeBundle
  pub now : ℕ
  pub generation_id : String
  pub outbox_id : String

-- The totals over a list of bundles.
abbrev pub count_chunks : List PreparedKnowledgeBundle → ℕ
count_chunks = sum_by (λ bundle. length bundle.chunks)

abbrev pub count_bytes : List PreparedKnowledgeBundle → ℕ
count_bytes = sum_by (λ bundle. bundle.total_normalized_utf8_bytes)

abbrev pub scope_dump : KnowledgeIndexScope → Json
scope_dump scope = object (
    field "namespace" (text scope.namespace)
      (field "customer_environment_id" (text scope.customer_environment_id) end))

-- `None if provenance is None else provenance.model_dump(mode="json")`
abbrev provenance_dump : Option Json → Json
provenance_dump none = null
provenance_dump (some provenance) = provenance

module _ (environment : Environment) where
  open environment use {canonical, sha256}

  -- `_digest`
  abbrev pub digest_of : Json → String
  digest_of value = sha256 (canonical value)

  abbrev pub document_fingerprint : PreparedDocumentManifest → String
  document_fingerprint manifest = digest_of (
      object (
        field "content" (text manifest.normalized_content_sha256)
          (field "governance" (text manifest.governance_sha256) end)))

  abbrev pub opaque_chunk_id : String → String → ℕ → String
  opaque_chunk_id prefix fingerprint ordinal =
      let digest =
        Text.slice
          (digest_of (
            object (
              field "fingerprint" (text fingerprint)
                (field "ordinal" (integer false ordinal) (field "kind" (text prefix) end)))))
          0 32 in
      Text.◌++◌ prefix (Text.◌++◌ "_" digest)

  abbrev pub chunks_text : List PreparedKnowledgeChunk → String
  chunks_text [] = ""
  chunks_text (chunk ∷ rest) =
      Text.◌++◌
        (canonical (
          object (
            field "chunk_id" (text chunk.chunk_id)
              (field "content_sha256" (text (sha256 chunk.content)) end))))
        (chunks_text rest)

  abbrev pub bundles_text : List PreparedKnowledgeBundle → String
  bundles_text [] = ""
  bundles_text (bundle ∷ rest) =
      let manifest = bundle.manifest in
      Text.◌++◌
        (canonical (
          object (
            field "document_id" (text manifest.document_id) (
              field "version" (text manifest.document_version) (
                field "document_fingerprint" (text manifest.document_fingerprint) (
                  field "governance_fingerprint" (text manifest.governance_sha256) (
                    field "source_provenance_fingerprint"
                      (text (digest_of (provenance_dump manifest.source_provenance))) end)))))))
        (Text.◌++◌ (chunks_text bundle.chunks) (bundles_text rest))

  -- `_generation_digest`: the updates of the hasher in order are one text.
  abbrev pub generation_digest : KnowledgeIndexScope → List PreparedKnowledgeBundle → String
  generation_digest scope bundles = sha256 (
      Text.◌++◌
        (canonical
          (object (field "contract" (integer false 1) (field "scope" (scope_dump scope) end))))
        (Text.◌++◌ (bundles_text bundles) (
          canonical (
            object (
              field "document_count" (integer false (length bundles)) (
                field "chunk_count" (integer false (count_chunks bundles))
                  (field "total_normalized_bytes" (integer false (count_bytes bundles)) end)))))))
