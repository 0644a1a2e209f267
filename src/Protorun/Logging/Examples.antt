-- ===== src/Protorun/Logging/Examples.antt =====
-- A logger of pkg/protorun/logging.go that shows one component, derived the way the runtime and a
-- protocol derive theirs.
use go_simple_protocol_runti.Common.{
  ℕ, suc, ◌≡◌, List, [], ◌∷◌, Bool, true, ◌&&◌, ◌||◌, none, if◌then◌else◌, ◌==◌, nat_eq, length,
}
use go_simple_protocol_runti.Protorun.Logging.{
  text, Attr, Record, component_key, SlogHandler, dropped, passed, LoggingConfig,
  new_logger_from_config, level_info,
}
use go_simple_protocol_runti.Protorun.Logging.Filter.{
  Derivation, attributes, group, own_component, shown, derive_base, base_of, log,
  log-new_logger_from_config,
}

-- A handler that counts how often it was derived.
abbrev counting : SlogHandler ℕ
counting = record {
  enabled_at = λ (n : ℕ). λ (level : ℕ). true;
  handle_record = λ (n : ℕ). λ (r : Record). none;
  with_attrs_of = λ (n : ℕ). λ (attrs : List Attr). suc n;
  with_group_of = λ (n : ℕ). λ (name : List ℕ). suc n;
}

abbrev runtime_name : List ℕ
runtime_name = 114 ∷ []

abbrev protocol_name : List ℕ
protocol_name = 112 ∷ []

abbrev only_protocols : LoggingConfig ℕ counting
only_protocols = record { level_name = []; components = protocol_name ∷ []; format = [] }

abbrev named : List ℕ → Derivation
named name = attributes (record { key = component_key; value = text name } ∷ [])

abbrev protocol_logger : List Derivation
protocol_logger = named runtime_name ∷ group [] ∷ named protocol_name ∷ []

abbrev started : Record
started = record { level = level_info; attrs = [] }

abbrev on_stderr : Bool → ℕ → ℕ
on_stderr json level = level

log-new_logger_from_config_example :
    log ℕ counting
      (new_logger_from_config ℕ counting on_stderr only_protocols)
      protocol_logger
      started
    ≡ (if counting.enabled_at
            (derive_base ℕ counting protocol_logger (base_of ℕ counting on_stderr only_protocols))
            started.level
          && ((length only_protocols.components == 0)
              || shown only_protocols.components (own_component protocol_logger) started.attrs)
        then passed (
            counting.handle_record
              (derive_base ℕ counting protocol_logger (base_of ℕ counting on_stderr only_protocols))
              started)
        else dropped)
log-new_logger_from_config_example =
    log-new_logger_from_config ℕ counting on_stderr only_protocols protocol_logger started
