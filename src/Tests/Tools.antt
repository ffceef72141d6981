-- ===== src/Tests/Tools.antt =====
-- The gateway on one invocation that succeeds and on one with a reserved argument.
use ai_systems_try.Base.{
  ℕ, ◌+◌, ◌≡◌, refl, true, false, some, [], ◌∷◌, ◌↔◌, string_eq, if◌then◌else◌, ok, ◌≤◌,
}
use ai_systems_try.Base.Dict
use ai_systems_try.Base.Sort.{sorted}
use ai_systems_try.Json.{
  Json, text, object, array, item, none_left, end, field, contains_reserved_argument,
  json_depth_and_nodes,
}
use ai_systems_try.Json.Laws.{ReservedKey, HasKey, contains_reserved_argument_iff}
use ai_systems_try.Json.Depth.{HasNode, node_count, json_depth_and_nodes_lem}
use ai_systems_try.Capability.Access.{evaluate_capability_access}
use ai_systems_try.Tools.{ToolInvocation}
use ai_systems_try.Tools.Gateway.{
  init, index_descriptors, execute, execute_read, run_handler, finish_raw, finish_output,
  record_before_return,
}
use ai_systems_try.Tools.Gateway.Laws.{IsAudited, is_success, execute-IsAudited}
use ai_systems_try.Tools.Gateway.Runs.{run_count, may_run, run_count-execute, execute-success}
use ai_systems_try.Tools.Gateway.Startup.{IsInstalled, init-IsInstalled}
use ai_systems_try.Tests.Fixtures.{
  some_context, some_registry, some_gateway, some_sink, some_invocation, search_handler,
}

-- The context's own name deep in the arguments.
abbrev reserved_arguments : Json
reserved_arguments =
    object (field "filters" (array (item (object (field "user_id" (text "u") end)) none_left)) end)

abbrev reserved_invocation : ToolInvocation
reserved_invocation = record some_invocation { arguments = reserved_arguments }

execute_succeeds : is_success (execute some_gateway some_context some_invocation []).0 ≡ true
unfolding execute execute_read run_handler finish_raw finish_output record_before_return Dict.get
    string_eq evaluate_capability_access contains_reserved_argument
execute_succeeds = refl

execute_refuses_reserved :
    is_success (execute some_gateway some_context reserved_invocation []).0 ≡ false
unfolding execute execute_read run_handler finish_raw finish_output record_before_return Dict.get
    string_eq evaluate_capability_access contains_reserved_argument
    ai_systems_try.Tools.Gateway.fail
execute_refuses_reserved = refl

run_count-execute_example :
    run_count (execute some_gateway some_context some_invocation []).1
    ≡ run_count [] + (if may_run some_gateway some_context some_invocation then 1 else 0)
run_count-execute_example = run_count-execute some_gateway some_context some_invocation []

execute-success_example : may_run some_gateway some_context some_invocation ≡ true
execute-success_example =
    execute-success some_gateway some_context some_invocation [] execute_succeeds

execute-IsAudited_example :
    IsAudited some_gateway some_invocation [] (execute some_gateway some_context some_invocation [])
execute-IsAudited_example = execute-IsAudited some_gateway some_context some_invocation []

init_succeeds : init some_registry (search_handler ∷ []) some_sink ≡ ok some_gateway
unfolding init sorted Dict.get Dict.insert string_eq
init_succeeds = refl

finds_handler : Dict.get "search_hr_knowledge" some_gateway.handlers_by_name ≡ some search_handler
unfolding Dict.get string_eq
finds_handler = refl

init-IsInstalled_example :
    IsInstalled some_gateway.descriptors_by_name "search_hr_knowledge" search_handler
init-IsInstalled_example =
    init-IsInstalled some_registry (search_handler ∷ []) some_sink some_gateway
      "search_hr_knowledge" search_handler init_succeeds finds_handler

contains_reserved_argument_iff_example :
    (contains_reserved_argument reserved_arguments ≡ true)
    ↔ ReservedKey (λ k. HasKey k reserved_arguments)
contains_reserved_argument_iff_example = contains_reserved_argument_iff reserved_arguments

json_depth_and_nodes_lem_example :
    ((k : ℕ) × HasNode k reserved_arguments
      × (1 + k ≡ (json_depth_and_nodes reserved_arguments 1).0))
    × ((k : ℕ)
        → HasNode k reserved_arguments
        → 1 + k ≤ (json_depth_and_nodes reserved_arguments 1).0)
    × ((json_depth_and_nodes reserved_arguments 1).1 ≡ node_count reserved_arguments)
json_depth_and_nodes_lem_example = json_depth_and_nodes_lem reserved_arguments 1
