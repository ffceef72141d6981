-- ===== src/Tests/Knowledge.antt =====
-- The knowledge search on two ranked matches.
use Prim.Native.String.{count}
use ai_systems_try.Base.{
  ◌≤◌, String, ◌≡◌, refl, ◌↔◌, Option, some, List, [], ◌∷◌, map, Except, ok, string_eq, nat_eq,
}
use ai_systems_try.Knowledge.{KnowledgeRetrievalRequest, KnowledgeMatch}
use ai_systems_try.HrKnowledge.{
  SearchHrKnowledgeOutput, validate_matches, to_excerpt, retrieval_request, execute,
}
use ai_systems_try.HrKnowledge.Laws.{IsAccepted, validate_matches_iff, execute_iff}
use ai_systems_try.Tests.Fixtures.{some_context, some_match, later_match, some_excerpt}

abbrev some_matches : List KnowledgeMatch
some_matches = some_match ∷ later_match ∷ []

abbrev retrieve : KnowledgeRetrievalRequest → Option (List KnowledgeMatch)
retrieve request = some (some_match ∷ [])

abbrev found : SearchHrKnowledgeOutput
found = record { excerpts = some_excerpt ∷ [] }

accepts_matches : validate_matches some_context some_matches ≡ ok tt
unfolding validate_matches nat_eq string_eq ai_systems_try.Base.option_eq
accepts_matches = refl

execute_succeeds : execute retrieve some_context "leave" ≡ ok found
unfolding execute validate_matches to_excerpt nat_eq string_eq ai_systems_try.Base.option_eq
execute_succeeds = refl

validate_matches_iff_example :
    (validate_matches some_context some_matches ≡ ok tt) ↔ IsAccepted some_context some_matches
validate_matches_iff_example = validate_matches_iff some_context some_matches

execute_iff_example : (execute retrieve some_context "leave" ≡ ok found) ↔ (
    (matches : List KnowledgeMatch) × (2 ≤ count some_context.locale)
    × (count some_context.locale ≤ 35)
    × (retrieve (retrieval_request some_context "leave") ≡ some matches)
    × IsAccepted some_context matches
    × (found.excerpts ≡ map to_excerpt matches))
execute_iff_example = execute_iff retrieve some_context "leave" found
