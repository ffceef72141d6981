-- ===== src/Indexing/Publisher.antt =====
-- src/erp_ai/knowledge/indexing/publisher.py: the publication and the rollback, over the repository of
-- src/erp_ai/knowledge/indexing/repository.py, whose state is `S` and whose exceptions are `E`.
pub mod Laws
use ai_systems_try.Base.{
  ◌≡◌, refl, sym, ap, arith, String, Bool, true, false, Option, none, some, List, ◌==◌, string_eq,
  if◌then◌else◌, Except, ok, raise, Bool-cases, inl, inr,
}
use ai_systems_try.Indexing.{
  PreparedKnowledgeBundle, KnowledgePublicationContext, KnowledgePublicationPlan,
  IndexPublicationLimits, KnowledgeIndexScope, PublicationError,
}
use ai_systems_try.Indexing.Digest.{Environment, digest_of, scope_dump}
use ai_systems_try.Json.{text, object, Fields, end, field}
use ai_systems_try.Indexing.Plan.{build_plan, scope_of, or_untrusted}

pub data PublicationDisposition : Type 0 where
  published idempotent rolled_back : PublicationDisposition

pub record KnowledgePublicationResult : Type 0 where
  pub operation_id : String
  pub scope : KnowledgeIndexScope
  pub generation_id : String
  pub previous_generation_id : Option String
  pub generation_digest : String
  pub operation_digest : String
  pub disposition : PublicationDisposition

pub record KnowledgeRollbackResult : Type 0 where
  pub operation_id : String
  pub scope : KnowledgeIndexScope
  pub activated_generation_id : String
  pub previous_generation_id : String
  pub generation_digest : String
  pub operation_digest : String
  pub disposition : PublicationDisposition

pub data KnowledgeOperationResult : Type 0 where
  of_publication : KnowledgePublicationResult → KnowledgeOperationResult
  of_rollback : KnowledgeRollbackResult → KnowledgeOperationResult

pub record KnowledgeRollbackRequest : Type 0 where
  pub context : KnowledgePublicationContext
  pub scope : KnowledgeIndexScope
  pub target_generation_id : String
  pub operation_digest : String
  pub outbox_id : String

-- What leaves a publication as an exception.
pub data PublisherError (E : Type 0) : Type 0 where
  invalid : PublicationError → PublisherError E
  operation_conflict : PublisherError E
  repository_failed : E → PublisherError E

-- A call of the repository raises or returns, and leaves the state that it leaves.
pub record KnowledgeIndexRepository (E S : Type 0) : Type 0 where
  pub get_operation_result : S → String → Except E (Option KnowledgeOperationResult)
  pub commit_generation :
      S → KnowledgePublicationPlan → Option String → Except E KnowledgePublicationResult × S
  pub commit_rollback : S → KnowledgeRollbackRequest → String → Except E KnowledgeRollbackResult × S

module _ {E S : Type 0} (repository : KnowledgeIndexRepository E S) where
  abbrev pub committed :
      Except E KnowledgePublicationResult × S
      → Except (PublisherError E) KnowledgePublicationResult × S
  committed (raise exception, s) = (raise (repository_failed exception), s)
  committed (ok result, s) = (ok result, s)

  -- What is done about the result of an earlier call.
  abbrev pub settle :
      KnowledgePublicationPlan
      → Option String
      → S
      → Except E (Option KnowledgeOperationResult)
      → Except (PublisherError E) KnowledgePublicationResult × S
  settle plan expected s (raise exception) = (raise (repository_failed exception), s)
  settle plan expected s (ok none) = committed (repository.commit_generation s plan expected)
  settle plan expected s (ok (some (of_rollback existing))) = (raise operation_conflict, s)
  settle plan expected s (ok (some (of_publication existing))) =
      if existing.operation_digest == plan.operation_digest
      then (ok existing, s)
      else (raise operation_conflict, s)

  abbrev pub publish_plan :
      Option String
      → S
      → Except PublicationError KnowledgePublicationPlan
      → Except (PublisherError E) KnowledgePublicationResult × S
  publish_plan expected s (raise exception) = (raise (invalid exception), s)
  publish_plan expected s (ok plan) =
      settle plan expected s (repository.get_operation_result s plan.context.operation_id)

  unfoldable pub publish :
      Environment
      → KnowledgePublicationContext
      → List PreparedKnowledgeBundle
      → Option String
      → IndexPublicationLimits
      → S
      → Except (PublisherError E) KnowledgePublicationResult × S
  publish environment context bundles expected limits s =
      publish_plan expected s (build_plan environment context bundles limits)

  abbrev pub committed_rollback :
      Except E KnowledgeRollbackResult × S → Except (PublisherError E) KnowledgeRollbackResult × S
  committed_rollback (raise exception, s) = (raise (repository_failed exception), s)
  committed_rollback (ok result, s) = (ok result, s)

  abbrev pub settle_rollback :
      KnowledgeRollbackRequest
      → String
      → S
      → Except E (Option KnowledgeOperationResult)
      → Except (PublisherError E) KnowledgeRollbackResult × S
  settle_rollback request expected s (raise exception) = (raise (repository_failed exception), s)
  settle_rollback request expected s (ok none) =
      committed_rollback (repository.commit_rollback s request expected)
  settle_rollback request expected s (ok (some (of_publication existing))) =
      (raise operation_conflict, s)
  settle_rollback request expected s (ok (some (of_rollback existing))) =
      if existing.operation_digest == request.operation_digest
      then (ok existing, s)
      else (raise operation_conflict, s)

  abbrev pub request_of :
      Environment → KnowledgePublicationContext → String → KnowledgeRollbackRequest
  request_of environment trusted target =
      let scope = scope_of trusted in
      record {
        context = trusted;
        scope = scope;
        target_generation_id = target;
        operation_digest =
            digest_of environment (
              object
                (field "scope" (scope_dump scope) (field "rollback_target" (text target) end)));
        outbox_id = environment.outbox_id;
      }

  abbrev pub rollback_trusted :
      Environment
      → String
      → String
      → S
      → Except PublicationError KnowledgePublicationContext
      → Except (PublisherError E) KnowledgeRollbackResult × S
  rollback_trusted environment target expected s (raise exception) = (raise (invalid exception), s)
  rollback_trusted environment target expected s (ok trusted) =
      settle_rollback (request_of environment trusted target) expected s
        (repository.get_operation_result s trusted.operation_id)

  unfoldable pub rollback :
      Environment
      → KnowledgePublicationContext
      → String
      → String
      → S
      → Except (PublisherError E) KnowledgeRollbackResult × S
  rollback environment context target expected s =
      rollback_trusted environment target expected s
        (or_untrusted (environment.validate_context context))
