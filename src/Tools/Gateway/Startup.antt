-- ===== src/Tools/Gateway/Startup.antt =====
-- What the construction of the gateway guarantees of every installed handler.
use ai_systems_try.Base.{
  String, ◌≡◌, refl, sym, subst, true, Option, none, some, List, [], ◌∷◌, arith, contains,
  string_eq, ok, ◌>>◌, raise_if, >>=-eq-ok,
}
use ai_systems_try.Base.Dict
use ai_systems_try.Base.Dict.{Dict}
use ai_systems_try.Capability.{ToolDescriptor, read}
use ai_systems_try.Capability.Registry.{CapabilityRegistry}
use ai_systems_try.Capability.Registry.Laws.{all_tools}
use ai_systems_try.Tools.{ReadToolHandler, ToolAuditSink}
use ai_systems_try.Tools.Gateway.{
  ReadToolGateway, GatewayError, check_handler, index_descriptors, index_handlers, init,
  ordered_handlers,
}

-- Handler `h` is installed as `name` for a registered read tool of its version, behind strict and
-- frozen models, of which the input model takes no other field.
pub record IsInstalled (descriptors : Dict String ToolDescriptor) (name : String)
    (h : ReadToolHandler) : Type 0 where
  pub own_name : h.tool_name ≡ name
  pub descriptor : ToolDescriptor
  pub registered : Dict.get name descriptors ≡ some descriptor
  pub same_version : descriptor.version ≡ h.version
  pub is_read : descriptor.operation ≡ read
  pub strict_input : h.input_model.strict ≡ true
  pub frozen_input : h.input_model.frozen ≡ true
  pub closed_input : h.input_model.forbids_extra ≡ true
  pub strict_output : h.output_model.strict ≡ true
  pub frozen_output : h.output_model.frozen ≡ true

check_handler-IsInstalled :
    (descriptors : Dict String ToolDescriptor) (h : ReadToolHandler) (found : Option ToolDescriptor)
    → Dict.get h.tool_name descriptors ≡ found
    → check_handler h found ≡ ok tt
    → IsInstalled descriptors h.tool_name h
unfolding check_handler
check_handler-IsInstalled descriptors h none e c = cc
check_handler-IsInstalled descriptors h (some d) e c = record {
  own_name = refl;
  descriptor = d;
  registered = e;
  same_version = ground arith;
  is_read = ground arith;
  strict_input = ground arith;
  frozen_input = ground arith;
  closed_input = ground arith;
  strict_output = ground arith;
  frozen_output = ground arith;
}

abbrev AllInstalled : Dict String ToolDescriptor → Dict String ReadToolHandler → Type 0
AllInstalled descriptors by_name =
    (name : String) (h : ReadToolHandler)
    → Dict.get name by_name ≡ some h
    → IsInstalled descriptors name h

AllInstalled-insert :
    (descriptors : Dict String ToolDescriptor) (by_name : Dict String ReadToolHandler)
    (new : ReadToolHandler)
    → IsInstalled descriptors new.tool_name new
    → AllInstalled descriptors by_name
    → AllInstalled descriptors (Dict.insert new.tool_name new by_name)
AllInstalled-insert descriptors by_name new i all name h e =
    elim (string_eq.dec name new.tool_name) [
      | yes p ↦
          let same : new ≡ h = cc (Dict.get-insert_self new.tool_name new by_name) in
          subst (λ x. IsInstalled descriptors name x) same
            (subst (λ n. IsInstalled descriptors n new) (sym p) i)
      | no p ↦ all name h (ground (arith, Dict.get-insert name new.tool_name new by_name))
    ]

index_handlers-AllInstalled :
    (descriptors : Dict String ToolDescriptor) (handlers : List ReadToolHandler)
    (by_name result : Dict String ReadToolHandler)
    → AllInstalled descriptors by_name
    → index_handlers descriptors handlers by_name ≡ ok result
    → AllInstalled descriptors result
unfolding index_handlers
index_handlers-AllInstalled descriptors [] by_name result all e =
    subst (AllInstalled descriptors) (cc) all
index_handlers-AllInstalled descriptors (h ∷ rest) by_name result all e =
    let (_, fresh, checks) =
      >>=-eq-ok
        (raise_if (contains (Dict.keys by_name) h.tool_name)
          (GatewayError.duplicate_handler h.tool_name))
        (λ _.
          check_handler h (Dict.get h.tool_name descriptors)
          >> index_handlers descriptors rest (Dict.insert h.tool_name h by_name))
        e in
    let (_, checked, more) =
      >>=-eq-ok (check_handler h (Dict.get h.tool_name descriptors))
        (λ _. index_handlers descriptors rest (Dict.insert h.tool_name h by_name)) checks in
    index_handlers-AllInstalled descriptors rest (Dict.insert h.tool_name h by_name) result
      (AllInstalled-insert descriptors by_name h
        (check_handler-IsInstalled descriptors h (Dict.get h.tool_name descriptors) refl checked)
        all)
      more

none_yet : (descriptors : Dict String ToolDescriptor) → AllInstalled descriptors []
unfolding Dict.get
none_yet descriptors name h e = cc

abbrev built :
    CapabilityRegistry
    → ToolAuditSink
    → Dict String ToolDescriptor
    → Dict String ReadToolHandler
    → ReadToolGateway
built registry sink descriptors by_name = record {
  registry = registry;
  handlers = ordered_handlers by_name;
  audit_sink = sink;
  handlers_by_name = by_name;
  descriptors_by_name = descriptors;
}

-- Every handler of a constructed gateway is found under its own name, and is installed for a
-- registered read tool of its version, behind strict and frozen models.
pub init-IsInstalled :
    (registry : CapabilityRegistry) (handlers : List ReadToolHandler) (sink : ToolAuditSink)
    (gateway : ReadToolGateway) (name : String) (h : ReadToolHandler)
    → init registry handlers sink ≡ ok gateway
    → Dict.get name gateway.handlers_by_name ≡ some h
    → IsInstalled gateway.descriptors_by_name name h
unfolding init
init-IsInstalled registry handlers sink gateway name h e found =
    let descriptors = index_descriptors (all_tools registry.manifests) [] in
    let build =
      λ (by_name : Dict String ReadToolHandler). built registry sink descriptors by_name in
    let (by_name, indexed, whole) =
      >>=-eq-ok (index_handlers descriptors handlers []) (λ by_name. ok (build by_name)) e in
    let same : build by_name ≡ gateway = cc in
    let all =
      index_handlers-AllInstalled descriptors handlers [] by_name (none_yet descriptors) indexed in
    subst
      (λ g. Dict.get name g.handlers_by_name ≡ some h → IsInstalled g.descriptors_by_name name h)
      same (all name h) found
