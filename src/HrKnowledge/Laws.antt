-- ===== src/HrKnowledge/Laws.antt =====
-- Which matches of the provider the handler lets through, and what it makes of them.
use Prim.Native.String.{count}
use ai_systems_try.Base.{
  raise_if-eq-ok, ◌≤◌, String, ◌≡◌, refl, sym, ap, ◌↔◌, Bool, true, false, not, ◌&&◌, Option, none,
  some, List, [], ◌∷◌, map, arith, ltb, length, contains, is_subset, has_unique_iff, Distinct, All,
  ◌==◌, string_eq, nat_eq, option_eq, Except, ok, raise, ◌>>=◌, ◌>>◌, raise_if, >>=-eq-ok,
}
use ai_systems_try.Base.Text.{string_le_trans}
use ai_systems_try.Context.{TrustedRequestContext, is_some}
use ai_systems_try.Capability.{restricted}
use ai_systems_try.Knowledge.{
  KnowledgeSourceType, product_documentation, customer_policy, KnowledgeRetrievalRequest,
  KnowledgeMatch, classification_rank,
}
use ai_systems_try.HrKnowledge.{
  KnowledgeExcerpt, SearchHrKnowledgeOutput, KnowledgeUnavailable, hr_namespace, combined_content,
  is_out_of_order, is_after_previous, is_past, check_customer_scope, check_match, check_each,
  validate_matches, or_failed, to_excerpt, retrieval_request, has_language_length, request_invalid,
  execute,
}

abbrev is_ok : Except KnowledgeUnavailable (Unit {0}) → Bool
is_ok (ok u) = true
is_ok (raise e) = false

is_ok-raise_if :
    (b : Bool) (e : KnowledgeUnavailable) (next : Except KnowledgeUnavailable (Unit {0}))
    → is_ok (raise_if b e >> next) ≡ (not b && is_ok next)
is_ok-raise_if true e next = refl
is_ok-raise_if false e next = refl

is_ok->> :
    (m next : Except KnowledgeUnavailable (Unit {0})) → is_ok (m >> next) ≡ (is_ok m && is_ok next)
is_ok->> (ok u) next = refl
is_ok->> (raise e) next = refl

-- The customer scope of a source.
abbrev pub has_scope : KnowledgeSourceType → Option String → String → Bool
has_scope product_documentation customer own = not (is_some customer)
has_scope customer_policy customer own = customer == some own

-- A match that the context may see: its modules and permissions are held, its purpose is the
-- context's, its customer and its legal entities are the context's own, it is in force when the
-- context was issued, its end included, and its classification is at most restricted.
pub is_visible : TrustedRequestContext → KnowledgeMatch → Bool
is_visible context match =
    match.namespace == hr_namespace
    && is_subset match.required_modules_all context.enabled_modules
    && is_subset match.required_permissions_all context.permission_codes
    && contains match.allowed_purposes context.purpose
    && has_scope match.source_type match.customer_environment_id context.customer_environment_id
    && is_subset match.legal_entity_ids context.legal_entity_ids
    && not (ltb context.issued_at match.effective_from)
    && not (is_past context.issued_at match.effective_to)
    && not (ltb (classification_rank restricted) (classification_rank match.data_classification))

is_ok-check_customer_scope :
    (source : KnowledgeSourceType) (customer : Option String) (own : String)
    → is_ok (check_customer_scope source customer own) ≡ has_scope source customer own
unfolding check_customer_scope
is_ok-check_customer_scope product_documentation none own = refl
is_ok-check_customer_scope product_documentation (some c) own = refl
is_ok-check_customer_scope customer_policy customer own = ground arith

is_ok-check_match :
    (context : TrustedRequestContext) (previous : Option KnowledgeMatch) (match : KnowledgeMatch)
    → is_ok (check_match context previous match)
      ≡ (is_after_previous previous match && is_visible context match)
unfolding check_match is_visible
is_ok-check_match context previous match = ground (
  arith,
  is_ok-check_customer_scope match.source_type match.customer_environment_id
      context.customer_environment_id,
)

-- Every match stands in order with each one behind it: a higher score, or the same score and a
-- chunk ID that is no greater.
abbrev pub IsRanked : List KnowledgeMatch → Type 0
IsRanked [] = Unit
IsRanked (match ∷ rest) = All (λ later. is_out_of_order match later ≡ false) rest × IsRanked rest

in_order_trans :
    (a b c : KnowledgeMatch)
    → is_out_of_order a b ≡ false
    → is_out_of_order b c ≡ false
    → is_out_of_order a c ≡ false
in_order_trans a b c h k = ground (arith, string_le_trans a.chunk_id b.chunk_id c.chunk_id)

abbrev Follows : Option KnowledgeMatch → List KnowledgeMatch → Type 0
Follows previous matches = All (λ match. is_after_previous previous match ≡ true) matches

Follows-step :
    (previous : Option KnowledgeMatch) (match : KnowledgeMatch) (rest : List KnowledgeMatch)
    → is_after_previous previous match ≡ true
    → All (λ later. is_out_of_order match later ≡ false) rest
    → Follows previous rest
Follows-step none match [] p h = tt
Follows-step none match (later ∷ rest) p h = (refl, Follows-step none match rest p h.1)
Follows-step (some previous) match [] p h = tt
Follows-step (some previous) match (later ∷ rest) p h = (
  ground (arith, in_order_trans previous match later),
  Follows-step (some previous) match rest p h.1,
)

in_order_of_Follows :
    (match : KnowledgeMatch) (rest : List KnowledgeMatch)
    → Follows (some match) rest
    → All (λ later. is_out_of_order match later ≡ false) rest
in_order_of_Follows match [] h = tt
in_order_of_Follows match (later ∷ rest) h = (ground arith, in_order_of_Follows match rest h.1)

Follows-of_in_order :
    (match : KnowledgeMatch) (rest : List KnowledgeMatch)
    → All (λ later. is_out_of_order match later ≡ false) rest
    → Follows (some match) rest
Follows-of_in_order match [] h = tt
Follows-of_in_order match (later ∷ rest) h = (ground arith, Follows-of_in_order match rest h.1)

abbrev AllVisible : TrustedRequestContext → List KnowledgeMatch → Type 0
AllVisible context matches = All (λ match. is_visible context match ≡ true) matches

check_each_sound :
    (context : TrustedRequestContext) (previous : Option KnowledgeMatch)
    (matches : List KnowledgeMatch)
    → is_ok (check_each context previous matches) ≡ true
    → Follows previous matches × IsRanked matches × AllVisible context matches
unfolding check_each
check_each_sound context previous [] h = (tt, tt, tt)
check_each_sound context previous (match ∷ rest) h =
    let first =
      is_ok->> (check_match context previous match) (check_each context (some match) rest) in
    let checked = is_ok-check_match context previous match in
    let (after, ranked, visible) = check_each_sound context (some match) rest (ground arith) in
    let in_order = in_order_of_Follows match rest after in
    let follows_first : is_after_previous previous match ≡ true = ground arith in
    (
      (follows_first, Follows-step previous match rest follows_first in_order),
      (in_order, ranked),
      (ground arith, visible),
    )

check_each_complete :
    (context : TrustedRequestContext) (previous : Option KnowledgeMatch)
    (matches : List KnowledgeMatch)
    → Follows previous matches
    → IsRanked matches
    → AllVisible context matches
    → is_ok (check_each context previous matches) ≡ true
unfolding check_each
check_each_complete context previous [] f r v = refl
check_each_complete context previous (match ∷ rest) f r v = ground (
  arith,
  is_ok->> (check_match context previous match) (check_each context (some match) rest),
  is_ok-check_match context previous match,
  check_each_complete context (some match) rest (Follows-of_in_order match rest r.0) r.1 v.1,
  f.0,
  v.0,
)

-- What the handler accepts: at most five matches with different chunk and citation IDs and no more
-- than 12,000 characters of content, ranked, and each visible to the context.
pub record IsAccepted (context : TrustedRequestContext) (matches : List KnowledgeMatch)
    : Type 0 where
  pub few : length matches ≤ 5
  pub different_chunks : Distinct (map (λ match. match.chunk_id) matches)
  pub different_citations : Distinct (map (λ match. match.citation_id) matches)
  pub short : combined_content matches ≤ 12_000
  pub ranked : IsRanked matches
  pub visible : All (λ match. is_visible context match ≡ true) matches

no_previous : (matches : List KnowledgeMatch) → Follows none matches
no_previous [] = tt
no_previous (match ∷ rest) = (refl, no_previous rest)

-- The validation passes exactly for what the handler accepts.
pub validate_matches_iff :
    (context : TrustedRequestContext) (matches : List KnowledgeMatch)
    → (validate_matches context matches ≡ ok tt) ↔ IsAccepted context matches
unfolding validate_matches
validate_matches_iff context matches = (
  (λ h.
      let (after, ranked, visible) = check_each_sound context none matches (ground arith) in
      record {
        few = ground arith;
        different_chunks =
            (has_unique_iff (map (λ match. match.chunk_id) matches)).0 (ground arith);
        different_citations =
            (has_unique_iff (map (λ match. match.citation_id) matches)).0 (ground arith);
        short = ground arith;
        ranked = ranked;
        visible = visible;
      }),
  (λ a.
      let p = (has_unique_iff (map (λ match. match.chunk_id) matches)).1 a.different_chunks in
      let q = (has_unique_iff (map (λ match. match.citation_id) matches)).1 a.different_citations in
      let each =
        check_each_complete context none matches (no_previous matches) a.ranked a.visible in
      ground (arith, p, q, each, a.few, a.short)),
)

abbrev of_excerpts : List KnowledgeExcerpt → SearchHrKnowledgeOutput
of_excerpts excerpts = record { excerpts = excerpts }

found_matches :
    (found : Option (List KnowledgeMatch)) (context : TrustedRequestContext)
    (output : SearchHrKnowledgeOutput)
    → (do
      matches ← or_failed found
      validate_matches context matches
      ok (record { excerpts = map to_excerpt matches }))
      ≡ ok output
    → (matches : List KnowledgeMatch) × (found ≡ some matches)
      × IsAccepted context matches
      × (output.excerpts ≡ map to_excerpt matches)
found_matches none context output h = absurd (ground arith)
found_matches (some matches) context output h =
    let (u, valid, same) =
      >>=-eq-ok (validate_matches context matches)
        (λ _. ok (record { excerpts = map to_excerpt matches })) h in
    (matches, refl, (validate_matches_iff context matches).0 valid, ground arith)

-- A search returns an output exactly when the context's locale has 2 to 35 characters, which the
-- request demands, and the provider returns matches, for the request built from the trusted context,
-- that the handler accepts; the excerpts are then those of all the matches, in their order.
pub execute_iff :
    (retrieve : KnowledgeRetrievalRequest → Option (List KnowledgeMatch))
    (context : TrustedRequestContext) (query : String) (output : SearchHrKnowledgeOutput)
    → (execute retrieve context query ≡ ok output) ↔ (
        (matches : List KnowledgeMatch) × (2 ≤ count context.locale)
        × (count context.locale ≤ 35)
        × (retrieve (retrieval_request context query) ≡ some matches)
        × IsAccepted context matches
        × (output.excerpts ≡ map to_excerpt matches))
unfolding execute
execute_iff retrieve context query output = (
  (λ h.
      let (u, valid, rest) =
        >>=-eq-ok (raise_if (not (has_language_length context.locale)) request_invalid)
          (λ _. do
            matches ← or_failed (retrieve (retrieval_request context query))
            validate_matches context matches
            ok (record { excerpts = map to_excerpt matches }))
          h in
      let (matches, found, accepted, same) =
        found_matches (retrieve (retrieval_request context query)) context output rest in
      let locale : has_language_length context.locale ≡ true =
        ground (
          arith,
          raise_if-eq-ok (not (has_language_length context.locale)) request_invalid valid,
        ) in
      (matches, ground (arith, locale), ground (arith, locale), found, accepted, same)),
  (λ (matches, long, short, found, accepted, same).
      let locale : has_language_length context.locale ≡ true = ground (arith, long, short) in
      rw (locale, found, (validate_matches_iff context matches).1 accepted)
        (ap ok (ap of_excerpts (sym same)))),
)
