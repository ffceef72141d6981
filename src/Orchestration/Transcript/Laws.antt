-- ===== src/Orchestration/Transcript/Laws.antt =====
-- The reasons that a transcript is refused for, and what a transcript within the budgets satisfies.
use ai_systems_try.Base.{
  ℕ, ◌+◌, String, ◌≡◌, Bool, true, false, Option, some, List, [], ◌∷◌, arith, string_eq,
}
use ai_systems_try.Orchestration.{
  AgentErrorCode, ModelToolInteraction, AgentLimits, Validation, JsonText,
}
use ai_systems_try.Orchestration.Transcript.{
  AgentReason, completed, route_not_completed, result_bytes, scan_transcript, transcript_failure,
}

-- The reason of a success, and the one that stands behind the loop.
abbrev pub is_reserved : AgentReason → Bool
is_reserved completed = true
is_reserved route_not_completed = true
is_reserved _ = false

module _ (pydantic : Validation) (json : JsonText) (limits : AgentLimits) where
  abbrev scan : List ModelToolInteraction → List String → ℕ → Option (AgentErrorCode × AgentReason)
  scan = scan_transcript pydantic json limits

  scan_reason :
      (interactions : List ModelToolInteraction) (ids : List String) (bytes : ℕ)
      (code : AgentErrorCode) (reason : AgentReason)
      → scan interactions ids bytes ≡ some (code, reason)
      → is_reserved reason ≡ false
  unfolding scan_transcript
  scan_reason [] ids bytes code reason h = ground arith
  scan_reason (interaction ∷ rest) ids bytes code reason h = ground (
    arith,
    scan_reason rest (interaction.assistant_call.call_id ∷ ids)
        (bytes + result_bytes pydantic json limits interaction) code reason,
  )

  pub transcript_reason :
      (interactions : List ModelToolInteraction) (code : AgentErrorCode) (reason : AgentReason)
      → transcript_failure pydantic json limits interactions ≡ some (code, reason)
      → is_reserved reason ≡ false
  unfolding transcript_failure
  transcript_reason interactions code reason h =
      ground (arith, scan_reason interactions [] 0 code reason)
