-- ===== src/Orchestration/Grounding.antt =====
-- src/erp_ai/orchestration/service.py: which citations a run has observed, and which evidence an
-- answer may cite.
pub mod Laws
pub mod Observed
use ai_systems_try.Base.{
  ℕ, String, Bool, true, false, not, ◌&&◌, ◌||◌, Option, none, some, List, [], ◌∷◌, ◌++◌, map, ltb,
  length, any, contains, has_unique, keep, ◌==◌, Eq, string_eq, nat_eq, list_eq, if◌then◌else◌,
}
use ai_systems_try.Base.Dict
use ai_systems_try.Base.Dict.{Dict}
use ai_systems_try.Context.{is_some}
use ai_systems_try.Capability.Access.{is_empty}
use ai_systems_try.Knowledge.{KnowledgeSourceType}
use ai_systems_try.HrKnowledge.{KnowledgeExcerpt}
use ai_systems_try.Tools.{ToolOutput, knowledge_output, other_output, PublicToolSuccess}
use ai_systems_try.Orchestration.{
  AnswerBasis, general, knowledge, erp_data, mixed, PublicCitation, ModelFinalAnswer,
}

pub record SuccessfulEvidenceCall : Type 0 where
  pub call_id : String
  pub tool_name : String
  pub version : String
  pub is_knowledge : Bool
  pub citation_ids : List String

abbrev pub Observed : Type 0
Observed = Dict String PublicCitation

abbrev pub Evidence : Type 0
Evidence = Dict String SuccessfulEvidenceCall

PublicCitation-discrete : Discrete PublicCitation
PublicCitation-discrete = hlevel string_eq.dec

instance unfoldable pub citation_eq : Eq PublicCitation
unfolding PublicCitation-discrete
citation_eq = record { dec = PublicCitation-discrete }

unfoldable pub to_citation : KnowledgeExcerpt → PublicCitation
to_citation excerpt = record {
  citation_id = excerpt.citation_id;
  title = excerpt.title;
  section = excerpt.section;
  language = excerpt.language;
  source_type = excerpt.source_type;
  document_version = excerpt.document_version;
}

abbrev pub conflicts : Option PublicCitation → PublicCitation → Bool
conflicts none citation = false
conflicts (some existing) citation = not (existing == citation)

-- The loop of `_observe_citations`: the IDs of the call, and the citations observed after it.
observe_excerpts : List KnowledgeExcerpt → Observed → List String → Option (List String × Observed)
observe_excerpts [] observed call_citations = some (call_citations, observed)
observe_excerpts (excerpt ∷ rest) observed call_citations =
    let citation = to_citation excerpt in
    let more =
      observe_excerpts rest (Dict.insert citation.citation_id citation observed)
        (call_citations ++ citation.citation_id ∷ []) in
    if conflicts (Dict.get citation.citation_id observed) citation then none else more

observe_output : ToolOutput → Observed → Option (List String × Observed)
observe_output (other_output value) observed = some ([], observed)
observe_output (knowledge_output output) observed = observe_excerpts output.excerpts observed []

-- `_observe_citations`; `none` stands for a conflict.
unfoldable pub observe_citations : PublicToolSuccess → Observed → Option (List String × Observed)
unfolding observe_excerpts observe_output
observe_citations result observed =
    if not (result.tool_name == "search_hr_knowledge")
    then some ([], observed)
    else observe_output result.result observed

abbrev pub all_some {ℓ} : {A : Type ℓ} → List (Option A) → Option (List A)
all_some [] = some []
all_some (none ∷ rest) = none
all_some (some a ∷ rest) = elim (all_some rest) [ none ↦ none | some as' ↦ some (a ∷ as') ]

abbrev pub citation_ids_of : List SuccessfulEvidenceCall → List String
citation_ids_of [] = []
citation_ids_of (call ∷ rest) = call.citation_ids ++ citation_ids_of rest

-- The tests on the answer's own lists.
unfoldable pub is_well_formed : ModelFinalAnswer → Bool
is_well_formed answer = not (
    not (is_some answer.answer_basis)
    || ltb 4 (length answer.evidence_call_ids)
    || not (has_unique answer.evidence_call_ids)
    || ltb 20 (length answer.citation_ids)
    || not (has_unique answer.citation_ids))

-- The tests for each basis.
unfoldable pub fits_basis :
    Option AnswerBasis
    → ModelFinalAnswer
    → Evidence
    → List SuccessfulEvidenceCall
    → List SuccessfulEvidenceCall
    → Bool
fits_basis (some general) answer successful knowledge_calls erp_calls = not (
    not (is_empty answer.evidence_call_ids)
    || not (is_empty answer.citation_ids)
    || not (is_empty successful))
fits_basis (some knowledge) answer successful knowledge_calls erp_calls =
    not (is_empty knowledge_calls || not (is_empty erp_calls) || is_empty answer.citation_ids)
fits_basis (some erp_data) answer successful knowledge_calls erp_calls =
    not (is_empty erp_calls || not (is_empty knowledge_calls) || not (is_empty answer.citation_ids))
fits_basis _ answer successful knowledge_calls erp_calls = false

-- The part of `_validate_grounding` behind the lookup of the evidence. A cited ID that was never
-- observed would be a `KeyError`; here it is `none` too.
ground_answer :
    ModelFinalAnswer
    → Evidence
    → Observed
    → List SuccessfulEvidenceCall
    → Option (List PublicCitation)
ground_answer answer successful observed selected_calls =
    let knowledge_calls = keep (λ call. call.is_knowledge) selected_calls in
    let erp_calls = keep (λ call. not call.is_knowledge) selected_calls in
    let selected_citation_ids = citation_ids_of knowledge_calls in
    if not (fits_basis answer.answer_basis answer successful knowledge_calls erp_calls)
    then none
    else if any (λ id. not (contains selected_citation_ids id)) answer.citation_ids
    then none
    else all_some (map (λ id. Dict.get id observed) answer.citation_ids)

abbrev grounded :
    ModelFinalAnswer
    → Evidence
    → Observed
    → Option (List SuccessfulEvidenceCall)
    → Option (List PublicCitation)
grounded answer successful observed none = none
grounded answer successful observed (some calls) = ground_answer answer successful observed calls

-- `_validate_grounding`
unfoldable pub validate_grounding :
    ModelFinalAnswer → Evidence → Observed → Option (List PublicCitation)
unfolding ground_answer is_well_formed fits_basis
validate_grounding answer successful observed =
    if not (is_well_formed answer)
    then none
    else grounded answer successful observed
        (all_some (map (λ id. Dict.get id successful) answer.evidence_call_ids))

abbrev pub expected_basis : Bool → AnswerBasis
expected_basis is_knowledge = if is_knowledge then knowledge else erp_data

AnswerBasis-discrete : Discrete AnswerBasis
AnswerBasis-discrete = hlevel

instance unfoldable pub basis_eq : Eq AnswerBasis
unfolding AnswerBasis-discrete
basis_eq = record { dec = AnswerBasis-discrete }

-- `_matches_exact_route_grounding`
unfoldable pub matches_exact_route_grounding : ModelFinalAnswer → Evidence → Bool
matches_exact_route_grounding answer ((id, selected) ∷ []) =
    answer.evidence_call_ids == selected.call_id ∷ [] && elim answer.answer_basis [
      | none ↦ false
      | some basis ↦ basis == expected_basis selected.is_knowledge
    ]
matches_exact_route_grounding answer _ = false
