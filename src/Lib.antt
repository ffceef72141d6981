-- ===== src/Lib.antt =====
-- The ERP assistant's trusted core, as a library of models and theorems.
--
-- The program answers a chat request of an ERP user with a language model that may call read-only
-- tools. A request passes four boundaries, each a component here:
--   * the application (src/erp_ai/application/) resolves the trusted context and intent of a request,
--     verifies its authorization snapshot, and finds the route of the intent: Application for the
--     models, Application/Routing for TrustedRouteCatalog, Application/Service for
--     TrustedChatApplication.execute, whose steps are one function each, in the order of the code;
--   * the orchestrator (src/erp_ai/orchestration/) runs the route in at most two model turns:
--     Orchestration for the models and their validators, Orchestration/Arguments for the JSON text of
--     a call, Orchestration/Transcript for the budgets, Orchestration/Grounding for the citations,
--     Orchestration/Service for the audit and the catalog, Service/Turn for one round of the loop and
--     Service/Run for AgentOrchestrator.execute;
--   * the gateway (src/erp_ai/tools/) runs one tool for one context: Tools and Tools/Gateway;
--   * a handler answers the tool: HrKnowledge is the knowledge search of
--     src/erp_ai/capabilities/hr_knowledge/, over the matches of Knowledge, and Leave has the three
--     handlers of src/erp_ai/capabilities/leave/.
-- Beside the request, Indexing is the data of src/erp_ai/knowledge/indexing/, which publishes the
-- documents that are searched, Indexing/Digest its digests, Indexing/Bundles the validation of one
-- document, Indexing/Plan the plan of a publication, whose loop is recursion on the bundles, and
-- Indexing/Publisher the publication and the rollback, over a repository with any state.
-- Capability is src/erp_ai/capabilities/: which tools are registered, and which a context may use.
-- Json holds the measures of JSON values. Context is the trusted context. Runtime is
-- src/erp_ai/runtime/lifecycle.py: the lease of the provider resources, and their startup and
-- shutdown. Base has the shared helpers: Python's dict (Base/Dict), stable sort (Base/Sort), order of
-- strings (Base/Text) and exceptions (Base/Errors). Tests has concrete runs.
--
-- State is passed on explicitly. An awaited call is appended to a trace or a state, and what the other
-- side answers is a function of the state before it: the model provider, the audit sinks, the
-- handlers, the resolver, the verifier and the resources are parameters. A returned or raised outcome
-- is a value (Except, Attempt, Option), and none as the result of a run is an exception that leaves
-- it. A lock makes the operation that holds it one step. A datetime is the number of its instant, a
-- relevance score a number of fixed steps; a JSON number keeps what the checks read.
--
-- The loop of the orchestrator is recursion on the number of rounds left, one for a general route and
-- two for an exact one, as in the code; the audit theorem includes that the end behind the loop is
-- never reached.
--
-- Not modelled: the patterns and lengths of pydantic's fields, which are parameters (Validation,
-- ApplicationValidation) except for the length of the locale that a search demands, the json module
-- (JsonText), the SQL, HTTP and model clients under infrastructure/, the transport, the deployment,
-- and the ingestion and evaluation parts. The JSON writer and SHA-256 of the digests are parameters,
-- and so is the repository, whose state may be any type.
pub mod Base
pub mod Context
pub mod Capability
pub mod Json
pub mod Knowledge
pub mod HrKnowledge
pub mod Leave
pub mod Indexing
pub mod Tools
pub mod Orchestration
pub mod Application
pub mod Runtime
pub mod Tests
