-- ===== src/Orchestration/Grounding/Laws.antt =====
-- What a run has observed comes from the excerpts of its tool results, and what an answer cites was
-- observed.
use ai_systems_try.Base.{
  String, ◌≡◌, refl, sym, ◌⊎◌, inl, inr, Bool, true, not, Option, some, List, [], ◌∷◌, ◌++◌, map,
  arith, contains, All, ◌==◌, string_eq, if◌then◌else◌, Bool-cases,
}
use ai_systems_try.Base.Dict
use ai_systems_try.Base.Dict.{Dict, get-insert}
use ai_systems_try.HrKnowledge.{KnowledgeExcerpt}
use ai_systems_try.Tools.{ToolOutput, knowledge_output, other_output, PublicToolSuccess}
use ai_systems_try.Orchestration.{PublicCitation, ModelFinalAnswer}
use ai_systems_try.Orchestration.Grounding.{
  Observed, Evidence, citation_eq, to_citation, observe_excerpts, observe_output, observe_citations,
  all_some, ground_answer, validate_grounding,
}

abbrev pub output_excerpts : ToolOutput → List KnowledgeExcerpt
output_excerpts (other_output value) = []
output_excerpts (knowledge_output output) = output.excerpts

-- The excerpts of a tool result, which only the knowledge search has.
abbrev pub excerpts_of : PublicToolSuccess → List KnowledgeExcerpt
excerpts_of result =
    if not (result.tool_name == "search_hr_knowledge") then [] else output_excerpts result.result

abbrev pub is_excerpted : List KnowledgeExcerpt → PublicCitation → Bool
is_excerpted excerpts citation = contains (map to_citation excerpts) citation

-- What is observed at `id` was so before, or is an excerpt's citation with this ID.
abbrev pub IsObservedIn : Observed → List KnowledgeExcerpt → String → PublicCitation → Type 0
IsObservedIn before excerpts id citation =
    (Dict.get id before ≡ some citation)
    ⊎ ((citation.citation_id ≡ id) × (is_excerpted excerpts citation ≡ true))

inserted_sound :
    (before : Observed) (excerpts : List KnowledgeExcerpt) (c citation : PublicCitation)
    (id : String)
    → Dict.get id (Dict.insert c.citation_id c before) ≡ some citation
    → is_excerpted excerpts c ≡ true
    → IsObservedIn before excerpts id citation
inserted_sound before excerpts c citation id h e =
    let p = get-insert id c.citation_id c before in
    elim (Bool-cases (id == c.citation_id)) [
      | inl same ↦
          let q : c ≡ citation = ground (arith, p) in inr (rw (sym q) (ground arith), rw (sym q) e)
      | inr differs ↦ inl (ground (arith, p))
    ]

observe_excerpts_sound :
    (excerpts : List KnowledgeExcerpt) (before : Observed) (seen ids : List String)
    (after : Observed) (id : String) (citation : PublicCitation)
    → observe_excerpts excerpts before seen ≡ some (ids, after)
    → Dict.get id after ≡ some citation
    → IsObservedIn before excerpts id citation
unfolding observe_excerpts
observe_excerpts_sound [] before seen ids after id citation h g = inl (cc)
observe_excerpts_sound (excerpt ∷ rest) before seen ids after id citation h g =
    let c = to_citation excerpt in
    elim (observe_excerpts_sound rest (Dict.insert c.citation_id c before)
      (seen ++ c.citation_id ∷ []) ids after id citation (ground arith) g) [
        | inl k ↦ inserted_sound before (excerpt ∷ rest) c citation id k (ground arith)
        | inr k ↦ inr (k.0, ground arith)
      ]

observe_output_sound :
    (output : ToolOutput) (before : Observed) (ids : List String) (after : Observed) (id : String)
    (citation : PublicCitation)
    → observe_output output before ≡ some (ids, after)
    → Dict.get id after ≡ some citation
    → IsObservedIn before (output_excerpts output) id citation
unfolding observe_output
observe_output_sound (other_output value) before ids after id citation h g = inl cc
observe_output_sound (knowledge_output output) before ids after id citation h g =
    observe_excerpts_sound output.excerpts before [] ids after id citation h g

-- Every citation that a tool result makes observable was observed before it under the same ID, or
-- is the citation of one of the result's excerpts.
pub observe_citations_sound :
    (result : PublicToolSuccess) (before : Observed) (ids : List String) (after : Observed)
    (id : String) (citation : PublicCitation)
    → observe_citations result before ≡ some (ids, after)
    → Dict.get id after ≡ some citation
    → IsObservedIn before (excerpts_of result) id citation
unfolding observe_citations
observe_citations_sound result before ids after id citation h g =
    elim (Bool-cases (result.tool_name == "search_hr_knowledge")) [
      | inl searches ↦
          rw searches
            (observe_output_sound result.result before ids after id citation (ground arith) g)
      | inr other ↦ inl (ground arith)
    ]

pub all_some_lem {ℓ κ} :
    {A : Type ℓ} (P : A → Type κ) (f : String → Option A) (xs : List String) (ys : List A)
    → ((x : String) (y : A) → f x ≡ some y → P y)
    → all_some (map f xs) ≡ some ys
    → All P ys
all_some_lem P f xs [] p h = tt
all_some_lem P f [] (y ∷ ys) p h = cc
all_some_lem P f (x ∷ xs) (y ∷ ys) p h =
    (p x y (ground arith), all_some_lem P f xs ys p (ground arith))

pub all_some_inverse {ℓ} :
    {A : Type ℓ} (g : A → String) (f : String → Option A) (xs : List String) (ys : List A)
    → ((x : String) (y : A) → f x ≡ some y → g y ≡ x)
    → all_some (map f xs) ≡ some ys
    → map g ys ≡ xs
all_some_inverse g f [] [] p h = refl
all_some_inverse g f (x ∷ xs) [] p h = ground arith
all_some_inverse g f [] (y ∷ ys) p h = cc
all_some_inverse g f (x ∷ xs) (y ∷ ys) p h =
    let q = p x y (ground arith) in let r = all_some_inverse g f xs ys p (ground arith) in cc

pub validate_grounding_lookup :
    (answer : ModelFinalAnswer) (successful : Evidence) (observed : Observed)
    (citations : List PublicCitation)
    → validate_grounding answer successful observed ≡ some citations
    → all_some (map (λ id. Dict.get id observed) answer.citation_ids) ≡ some citations
unfolding validate_grounding ground_answer
validate_grounding_lookup answer successful observed citations h = ground arith
