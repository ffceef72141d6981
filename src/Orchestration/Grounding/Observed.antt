-- ===== src/Orchestration/Grounding/Observed.antt =====
-- src/erp_ai/orchestration/service.py: `_observe_citations` against a description of the citations
-- that a run has observed.
use ai_systems_try.Base.{
  String, ◌≡◌, refl, ◌∙◌, false, Option, none, some, List, [], ◌∷◌, ◌++◌, map, arith, All, ◌==◌,
  string_eq, Bool-cases, inl, inr,
}
use mathlib.Core.List.{append-nil, append_assoc}
use ai_systems_try.Base.Dict
use ai_systems_try.Base.Dict.{get-insert, get-insert_self}
use ai_systems_try.HrKnowledge.{KnowledgeExcerpt}
use ai_systems_try.Tools.{ToolOutput, knowledge_output, other_output, PublicToolSuccess}
use ai_systems_try.Orchestration.{PublicCitation}
use ai_systems_try.Orchestration.Grounding.{
  Observed, citation_eq, to_citation, conflicts, observe_excerpts, observe_output,
  observe_citations,
}
use ai_systems_try.Orchestration.Grounding.Laws.{
  output_excerpts, excerpts_of, IsObservedIn, observe_citations_sound,
}

-- Every citation of `before` is in `after` under its ID.
abbrev pub Extends : Observed → Observed → Type 0
Extends before after =
    (id : String) (citation : PublicCitation)
    → Dict.get id before ≡ some citation
    → Dict.get id after ≡ some citation

-- Each excerpt's citation is observed under its ID.
abbrev pub AllObserved : Observed → List KnowledgeExcerpt → Type 0
AllObserved observed excerpts =
    All (λ excerpt. Dict.get excerpt.citation_id observed ≡ some (to_citation excerpt)) excerpts

abbrev pub ids_of : List KnowledgeExcerpt → List String
ids_of = map (λ excerpt. excerpt.citation_id)

no_conflict :
    (found : Option PublicCitation) (new citation : PublicCitation)
    → conflicts found new ≡ false
    → found ≡ some citation
    → new ≡ citation
no_conflict none new citation h e = cc
no_conflict (some existing) new citation h e = ground arith

-- An excerpt without a conflict is added, and nothing is lost.
insert-Extends :
    (new : PublicCitation) (before : Observed)
    → conflicts (Dict.get new.citation_id before) new ≡ false
    → Extends before (Dict.insert new.citation_id new before)
insert-Extends new before h id citation e = elim (Bool-cases (id == new.citation_id)) [
  | inl same ↦
      let known : Dict.get new.citation_id before ≡ some citation = ground (arith, e) in
      ground (
        arith,
        get-insert id new.citation_id new before,
        no_conflict (Dict.get new.citation_id before) new citation h known,
      )
  | inr differs ↦ ground (arith, get-insert id new.citation_id new before, e)
]

observe_excerpts-Extends :
    (excerpts : List KnowledgeExcerpt) (before : Observed) (seen ids : List String)
    (after : Observed)
    → observe_excerpts excerpts before seen ≡ some (ids, after)
    → (ids ≡ seen ++ ids_of excerpts) × Extends before after × AllObserved after excerpts
unfolding observe_excerpts to_citation
observe_excerpts-Extends [] before seen ids after h =
    (rw (append-nil seen) cc, (λ id citation e. cc), tt)
observe_excerpts-Extends (excerpt ∷ rest) before seen ids after h =
    let new = to_citation excerpt in
    let free : conflicts (Dict.get new.citation_id before) new ≡ false = ground arith in
    let (same, kept, all) =
      observe_excerpts-Extends rest (Dict.insert new.citation_id new before)
        (seen ++ new.citation_id ∷ []) ids after (ground arith) in
    (
      same ∙ append_assoc seen (new.citation_id ∷ []) (ids_of rest),
      (λ id citation e. kept id citation (insert-Extends new before free id citation e)),
      (kept new.citation_id new (get-insert_self new.citation_id new before), all),
    )

-- A map that has all the citations rules every conflict out.
free_of_conflict :
    (found : Option PublicCitation) (new : PublicCitation)
    → ((citation : PublicCitation) → found ≡ some citation → citation ≡ new)
    → conflicts found new ≡ false
free_of_conflict none new f = refl
free_of_conflict (some existing) new f = ground (arith, f existing refl)

insert-within :
    (new : PublicCitation) (before model : Observed)
    → Extends before model
    → Dict.get new.citation_id model ≡ some new
    → Extends (Dict.insert new.citation_id new before) model
insert-within new before model within has id citation e =
    elim (Bool-cases (id == new.citation_id)) [
      | inl same ↦ ground (arith, get-insert id new.citation_id new before, e, has)
      | inr differs ↦
          within id citation (ground (arith, get-insert id new.citation_id new before, e))
    ]

observe_excerpts-some :
    (excerpts : List KnowledgeExcerpt) (before model : Observed) (seen : List String)
    → Extends before model
    → AllObserved model excerpts
    → (ids : List String) × (after : Observed) × (observe_excerpts excerpts before seen
        ≡ some (ids, after))
unfolding observe_excerpts to_citation
observe_excerpts-some [] before model seen within all = (seen, before, refl)
observe_excerpts-some (excerpt ∷ rest) before model seen within all =
    let new = to_citation excerpt in
    let free =
      free_of_conflict (Dict.get new.citation_id before) new
        (λ citation e. cc (within new.citation_id citation e, all.0)) in
    let (ids, after, more) =
      observe_excerpts-some rest (Dict.insert new.citation_id new before) model
        (seen ++ new.citation_id ∷ []) (insert-within new before model within all.0) all.1 in
    (ids, after, rw free more)

observe_output-Extends :
    (output : ToolOutput) (before : Observed) (ids : List String) (after : Observed)
    → observe_output output before ≡ some (ids, after)
    → (ids ≡ ids_of (output_excerpts output))
      × Extends before after
      × AllObserved after (output_excerpts output)
unfolding observe_output
observe_output-Extends (other_output value) before ids after h = (cc, (λ id citation e. cc), tt)
observe_output-Extends (knowledge_output output) before ids after h =
    observe_excerpts-Extends output.excerpts before [] ids after h

observe_output-some :
    (output : ToolOutput) (before model : Observed)
    → Extends before model
    → AllObserved model (output_excerpts output)
    → (ids : List String) × (after : Observed) × (observe_output output before ≡ some (ids, after))
unfolding observe_output
observe_output-some (other_output value) before model within all = ([], before, refl)
observe_output-some (knowledge_output output) before model within all =
    observe_excerpts-some output.excerpts before model [] within all

observe_citations-Extends :
    (result : PublicToolSuccess) (before : Observed) (ids : List String) (after : Observed)
    → observe_citations result before ≡ some (ids, after)
    → (ids ≡ ids_of (excerpts_of result))
      × Extends before after
      × AllObserved after (excerpts_of result)
unfolding observe_citations
observe_citations-Extends result before ids after h =
    elim (Bool-cases (result.tool_name == "search_hr_knowledge")) [
      | inl searches ↦
          rw searches (observe_output-Extends result.result before ids after (ground (arith, h)))
      | inr other ↦ let h' = rw other at h in rw other (cc, (λ id citation e. cc), tt)
    ]

observe_citations-some :
    (result : PublicToolSuccess) (before model : Observed)
    → Extends before model
    → AllObserved model (excerpts_of result)
    → (ids : List String) × (after : Observed) × (observe_citations result before
        ≡ some (ids, after))
unfolding observe_citations
observe_citations-some result before model within all =
    elim (Bool-cases (result.tool_name == "search_hr_knowledge")) [
      | inl searches ↦
          rw searches (observe_output-some result.result before model within (rw searches at all))
      | inr other ↦ rw other ([], before, refl)
    ]

-- What a successful observation has observed: the IDs are those of the result's excerpts in order,
-- nothing that was observed before is lost or changed, every excerpt's citation is observed, and
-- nothing else.
pub record IsObservation (result : PublicToolSuccess) (before : Observed) (ids : List String)
    (after : Observed) : Type 0 where
  pub named : ids ≡ ids_of (excerpts_of result)
  pub kept : Extends before after
  pub added : AllObserved after (excerpts_of result)
  pub sound :
      (id : String) (citation : PublicCitation)
      → Dict.get id after ≡ some citation
      → IsObservedIn before (excerpts_of result) id citation

-- A result's citations are observed exactly as described, and there is a conflict only if no
-- map at all has both what was observed before and the citation of every excerpt under its ID.
pub observe_citations-IsObservation :
    (result : PublicToolSuccess) (before : Observed)
    → ((ids : List String) (after : Observed)
        → observe_citations result before ≡ some (ids, after)
        → IsObservation result before ids after)
      × ((model : Observed)
          → Extends before model
          → AllObserved model (excerpts_of result)
          → (ids : List String) × (after : Observed) × (observe_citations result before
              ≡ some (ids, after)))
observe_citations-IsObservation result before = (
  (λ ids after h.
      let (named, kept, added) = observe_citations-Extends result before ids after h in
      record {
        named = named;
        kept = kept;
        added = added;
        sound = λ id citation e. observe_citations_sound result before ids after id citation h e;
      }),
  observe_citations-some result before,
)
