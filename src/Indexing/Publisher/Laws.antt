-- ===== src/Indexing/Publisher/Laws.antt =====
-- src/erp_ai/knowledge/indexing/publisher.py: a completed operation answers a second call.
use ai_systems_try.Base.{
  ℕ, false, any, ◌≡◌, refl, sym, ap, arith, String, Option, none, some, List, ◌==◌, string_eq,
  Except, ok, raise, Bool-cases, inl, inr,
}
use ai_systems_try.Indexing.{
  PreparedKnowledgeBundle, KnowledgePublicationContext, KnowledgePublicationPlan,
  IndexPublicationLimits, PublicationError,
}
use ai_systems_try.Indexing.Digest.{Environment}
use ai_systems_try.Indexing.Plan.Retry.{later, is_stale, build_plan-again}
use ai_systems_try.Indexing.Plan.{build_plan, or_untrusted}
use ai_systems_try.Indexing.Publisher.{
  KnowledgePublicationResult, KnowledgeRollbackResult, KnowledgeOperationResult, of_publication,
  of_rollback, KnowledgeIndexRepository, KnowledgeRollbackRequest, committed, settle, publish_plan,
  publish, committed_rollback, settle_rollback, request_of, rollback_trusted, rollback,
}

module _ {E S : Type 0} (repository : KnowledgeIndexRepository E S) where
  -- The repository keeps the result of a commit under its operation, with the plan's digest.
  abbrev pub Stores : Type 0
  Stores =
      (plan : KnowledgePublicationPlan) (expected : Option String) (s after : S)
      (result : KnowledgePublicationResult)
      → repository.commit_generation s plan expected ≡ (ok result, after)
      → (repository.get_operation_result after plan.context.operation_id
          ≡ ok (some (of_publication result)))
        × (result.operation_digest ≡ plan.operation_digest)

  committed-ok :
      (answer : Except E KnowledgePublicationResult × S) {result : KnowledgePublicationResult}
      {after : S}
      → committed repository answer ≡ (ok result, after)
      → answer ≡ (ok result, after)
  committed-ok (raise exception, s) h = cc
  committed-ok (ok r, s) h = cc

  settle-again :
      Stores
      → (plan plan' : KnowledgePublicationPlan) (expected again : Option String) (s after : S)
        (found : Except E (Option KnowledgeOperationResult)) (result : KnowledgePublicationResult)
      → plan'.context ≡ plan.context
      → plan'.operation_digest ≡ plan.operation_digest
      → repository.get_operation_result s plan.context.operation_id ≡ found
      → settle repository plan expected s found ≡ (ok result, after)
      → publish_plan repository again after (ok plan') ≡ (ok result, after)
  settle-again stores plan plan' expected again s after (raise e) result c d f h = cc
  settle-again stores plan plan' expected again s after (ok none) result c d f h =
      let kept = stores plan expected s after result (committed-ok _ h) in
      rw (c, kept.0) (ground (arith, kept.1, d))
  settle-again stores plan plan' expected again s after (ok (some (of_rollback r))) result c d f h =
      cc
  settle-again stores plan plan' expected again s after (ok (some (of_publication r))) result c d f
        h =
      elim (Bool-cases (r.operation_digest == plan.operation_digest)) [
        | inl same ↦
            let kept = rw same at h in
            rw (c, d, sym (ap (λ x. x.1) kept), f, same) (ap (λ x. (x.0, s)) kept)
        | inr differs ↦ let refused = rw differs at h in cc
      ]

  -- If a publication has returned a result, its plan is built, and no document of the plan is
  -- expired at a later time, then the same publication at that time, whatever its UUIDs and
  -- whichever generation is expected to be active then, returns the same result and changes nothing,
  -- in a repository that keeps results.
  pub publish-again :
      Stores
      → (environment : Environment) (now : ℕ) (generation_id outbox_id : String)
        (context : KnowledgePublicationContext) (bundles : List PreparedKnowledgeBundle)
        (expected again : Option String) (limits : IndexPublicationLimits) (s after : S)
        (result : KnowledgePublicationResult) (plan : KnowledgePublicationPlan)
      → build_plan environment context bundles limits ≡ ok plan
      → any (is_stale environment now generation_id outbox_id) plan.bundles ≡ false
      → publish repository environment context bundles expected limits s ≡ (ok result, after)
      → publish repository
          (later environment now generation_id outbox_id)
          context
          bundles
          again
          limits
          after
        ≡ (ok result, after)
  unfolding publish
  publish-again stores environment now generation_id outbox_id context bundles expected again limits
        s after result plan built fresh h =
      let (plan', rebuilt, c, b, d) =
        build_plan-again environment now generation_id outbox_id context bundles limits plan built
          fresh in
      rw rebuilt (
        settle-again stores plan plan' expected again s after
          (repository.get_operation_result s plan.context.operation_id) result c d refl
          (rw built at h))

  -- The repository keeps the result of a rollback in the same way.
  abbrev pub StoresRollbacks : Type 0
  StoresRollbacks =
      (request : KnowledgeRollbackRequest) (expected : String) (s after : S)
      (result : KnowledgeRollbackResult)
      → repository.commit_rollback s request expected ≡ (ok result, after)
      → (repository.get_operation_result after request.context.operation_id
          ≡ ok (some (of_rollback result)))
        × (result.operation_digest ≡ request.operation_digest)

  committed_rollback-ok :
      (answer : Except E KnowledgeRollbackResult × S) {result : KnowledgeRollbackResult} {after : S}
      → committed_rollback repository answer ≡ (ok result, after)
      → answer ≡ (ok result, after)
  committed_rollback-ok (raise exception, s) h = cc
  committed_rollback-ok (ok r, s) h = cc

  settle_rollback-again :
      StoresRollbacks
      → (request request' : KnowledgeRollbackRequest) (expected again : String) (s after : S)
        (found : Except E (Option KnowledgeOperationResult)) (result : KnowledgeRollbackResult)
      → request'.context ≡ request.context
      → request'.operation_digest ≡ request.operation_digest
      → repository.get_operation_result s request.context.operation_id ≡ found
      → settle_rollback repository request expected s found ≡ (ok result, after)
      → settle_rollback repository request' again after
          (repository.get_operation_result after request'.context.operation_id)
        ≡ (ok result, after)
  settle_rollback-again stores request request' expected again s after (raise e) result c d f h = cc
  settle_rollback-again stores request request' expected again s after (ok none) result c d f h =
      let kept = stores request expected s after result (committed_rollback-ok _ h) in
      rw (c, kept.0) (ground (arith, kept.1, d))
  settle_rollback-again stores request request' expected again s after
        (ok (some (of_publication r))) result c d f h =
      cc
  settle_rollback-again stores request request' expected again s after (ok (some (of_rollback r)))
        result c d f h =
      elim (Bool-cases (r.operation_digest == request.operation_digest)) [
        | inl same ↦
            let kept = rw same at h in
            rw (c, d, sym (ap (λ x. x.1) kept), f, same) (ap (λ x. (x.0, s)) kept)
        | inr differs ↦ let refused = rw differs at h in cc
      ]

  rollback_trusted-again :
      StoresRollbacks
      → (environment : Environment) (now : ℕ) (generation_id outbox_id : String)
        (target expected again : String) (s after : S) (result : KnowledgeRollbackResult)
        (trusted : Except PublicationError KnowledgePublicationContext)
      → rollback_trusted repository environment target expected s trusted ≡ (ok result, after)
      → rollback_trusted repository
          (later environment now generation_id outbox_id)
          target
          again
          after
          trusted
        ≡ (ok result, after)
  rollback_trusted-again stores environment now generation_id outbox_id target expected again s
        after result (raise e) h =
      cc
  rollback_trusted-again stores environment now generation_id outbox_id target expected again s
        after result (ok trusted) h =
      settle_rollback-again stores (request_of repository environment trusted target)
        (request_of repository (later environment now generation_id outbox_id) trusted target)
        expected again s after (repository.get_operation_result s trusted.operation_id) result refl
        refl refl h

  -- If a rollback has returned a result, then the same one at a later time, whatever its UUIDs and
  -- whichever generation is expected to be active then, returns the same result and changes nothing,
  -- in a repository that keeps results.
  pub rollback-again :
      StoresRollbacks
      → (environment : Environment) (now : ℕ) (generation_id outbox_id : String)
        (context : KnowledgePublicationContext) (target expected again : String) (s after : S)
        (result : KnowledgeRollbackResult)
      → rollback repository environment context target expected s ≡ (ok result, after)
      → rollback repository
          (later environment now generation_id outbox_id)
          context
          target
          again
          after
        ≡ (ok result, after)
  unfolding rollback
  rollback-again stores environment now generation_id outbox_id context target expected again s
        after result h =
      rollback_trusted-again stores environment now generation_id outbox_id target expected again s
        after result (or_untrusted (environment.validate_context context)) h
