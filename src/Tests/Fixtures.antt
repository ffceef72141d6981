-- ===== src/Tests/Fixtures.antt =====
-- A context, a registry with one knowledge tool and one leave tool, and a gateway with a handler for
-- the first.
use ai_systems_try.Base.{true, false, none, some, List, [], ◌∷◌}
use ai_systems_try.Context.{TrustedRequestContext}
use ai_systems_try.Json.{Json, text, object, end, field}
use ai_systems_try.Capability.{ToolDescriptor, CapabilityManifest, read, internal, restricted}
use ai_systems_try.Capability.Registry.{CapabilityRegistry}
use ai_systems_try.Knowledge.{KnowledgeMatch, customer_policy}
use ai_systems_try.HrKnowledge.{KnowledgeExcerpt}
use ai_systems_try.Tools.{
  ModelConfig, ReadToolHandler, ToolAuditSink, ToolInvocation, ToolOutput, knowledge_output,
}
use ai_systems_try.Tools.Gateway.{ReadToolGateway}

abbrev pub some_context : TrustedRequestContext
some_context = record {
  request_id = "req-1";
  customer_environment_id = "env-1";
  user_id = "user-1";
  employee_id = none;
  roles = "employee" ∷ [];
  permission_codes = "hr.knowledge.read" ∷ [];
  legal_entity_ids = "le-1" ∷ [];
  enabled_modules = "hr" ∷ [];
  locale = "en";
  timezone = "UTC";
  purpose = "assist";
  issued_at = 100;
  authorization_snapshot_id = "snap-1";
}

-- The same with a second role and an employee.
abbrev pub wide_context : TrustedRequestContext
wide_context = record some_context {
  employee_id = some "emp-1";
  roles = "employee" ∷ "manager" ∷ [];
}

abbrev pub search_tool : ToolDescriptor
search_tool = record {
  tool_name = "search_hr_knowledge";
  version = "1.0.0";
  operation = read;
  required_permissions_all = "hr.knowledge.read" ∷ [];
  required_roles_any = [];
  allowed_purposes = "assist" ∷ [];
  data_classification = internal;
  audit_action = "hr.knowledge.search";
  requires_employee_context = false;
}

abbrev pub leave_tool : ToolDescriptor
leave_tool = record {
  tool_name = "get_my_leave";
  version = "1.0.0";
  operation = read;
  required_permissions_all = [];
  required_roles_any = [];
  allowed_purposes = "assist" ∷ [];
  data_classification = restricted;
  audit_action = "leave.read";
  requires_employee_context = true;
}

abbrev pub knowledge_manifest : CapabilityManifest
knowledge_manifest = record {
  capability_code = "hr_knowledge";
  version = "1.0.0";
  required_modules = "hr" ∷ [];
  tools = search_tool ∷ [];
}

abbrev pub leave_manifest : CapabilityManifest
leave_manifest = record {
  capability_code = "a_leave";
  version = "1.0.0";
  required_modules = [];
  tools = leave_tool ∷ [];
}

abbrev pub manifests : List CapabilityManifest
manifests = knowledge_manifest ∷ leave_manifest ∷ []

abbrev pub some_registry : CapabilityRegistry
some_registry = record {
  manifests = leave_manifest ∷ knowledge_manifest ∷ [];
  by_code = ("a_leave", leave_manifest) ∷ ("hr_knowledge", knowledge_manifest) ∷ [];
  tools_by_name = ("get_my_leave", leave_tool) ∷ ("search_hr_knowledge", search_tool) ∷ [];
}

abbrev pub some_match : KnowledgeMatch
some_match = record {
  chunk_id = "chunk-1";
  document_id = "doc-1";
  citation_id = "cite-1";
  namespace = "hr";
  source_type = customer_policy;
  customer_environment_id = some "env-1";
  required_modules_all = "hr" ∷ [];
  required_permissions_all = [];
  allowed_purposes = "assist" ∷ [];
  legal_entity_ids = [];
  data_classification = internal;
  language = "en";
  title = "Leave policy";
  section = "1";
  document_version = "1.0.0";
  effective_from = 10;
  effective_to = some 100;
  content = "Twenty days.";
  relevance_score = 7;
}

-- A worse match of the same document.
abbrev pub later_match : KnowledgeMatch
later_match = record some_match {
  chunk_id = "chunk-2";
  citation_id = "cite-2";
  relevance_score = 3;
}

abbrev pub some_excerpt : KnowledgeExcerpt
some_excerpt = record {
  citation_id = "cite-1";
  title = "Leave policy";
  section = "1";
  language = "en";
  source_type = customer_policy;
  document_version = "1.0.0";
  content = "Twenty days.";
}

abbrev pub some_output : ToolOutput
some_output = knowledge_output (record { excerpts = some_excerpt ∷ [] })

abbrev strict_model : ModelConfig
strict_model = record { strict = true; frozen = true; forbids_extra = true }

abbrev pub query_arguments : Json
query_arguments = object (field "query" (text "leave") end)

abbrev pub search_handler : ReadToolHandler
search_handler = record {
  tool_name = "search_hr_knowledge";
  version = "1.0.0";
  input_model = strict_model;
  output_model = strict_model;
  input_schema = object end;
  validate_input = λ arguments. some arguments;
  execute = λ trace context arguments. some (text "raw");
  validate_output = λ raw. some some_output;
}

abbrev pub some_sink : ToolAuditSink
some_sink = record { delivers = λ trace event. true }

abbrev pub some_gateway : ReadToolGateway
some_gateway = record {
  registry = some_registry;
  handlers = search_handler ∷ [];
  audit_sink = some_sink;
  handlers_by_name = ("search_hr_knowledge", search_handler) ∷ [];
  descriptors_by_name = ("get_my_leave", leave_tool) ∷ ("search_hr_knowledge", search_tool) ∷ [];
}

abbrev pub some_invocation : ToolInvocation
some_invocation = record {
  tool_name = "search_hr_knowledge";
  version = "1.0.0";
  arguments = query_arguments;
}
