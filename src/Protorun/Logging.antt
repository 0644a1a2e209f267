-- ===== src/Protorun/Logging.antt =====
-- pkg/protorun/logging.go: the filter of log records by component. A Go string is the list of its bytes.
-- The handler that the filter wraps is log/slog's: the operations on it are a parameter.
pub mod Filter
pub mod Examples
use go_simple_protocol_runti.Common.{
  ℕ, List, [], ◌∷◌, Bool, true, false, not, ◌&&◌, ◌||◌, Option, none, some, if◌then◌else◌, ◌==◌,
  nat_eq, ltb, length, list_beq,
}
use go_simple_protocol_runti.Errors.{Error}

-- An slog.Value: a string, or a value of another kind.
pub data Value : Type 0 where
  text : List ℕ → Value
  other : Value

pub record Attr : Type 0 where
  pub key : List ℕ
  pub value : Value

pub record Record : Type 0 where
  pub level : ℕ
  pub attrs : List Attr

-- "component"
abbrev pub component_key : List ℕ
component_key = 99 ∷ 111 ∷ 109 ∷ 112 ∷ 111 ∷ 110 ∷ 101 ∷ 110 ∷ 116 ∷ []

-- slog.Handler: `none` is a nil error.
pub record SlogHandler (H : Type 0) : Type 0 where
  pub enabled_at : H → ℕ → Bool
  pub handle_record : H → Record → Option Error
  pub with_attrs_of : H → List Attr → H
  pub with_group_of : H → List ℕ → H

-- What Handle does with a record.
pub data Handled : Type 0 where
  dropped : Handled
  passed : Option Error → Handled

-- A set of strings, `map[string]struct{}`.
unfoldable pub is_in : List ℕ → List (List ℕ) → Bool
is_in name [] = false
is_in name (n ∷ names) = list_beq n name || is_in name names

-- The walk of r.Attrs in Handle: whether there is a component, and whether it is allowed.
unfoldable pub record_component : List (List ℕ) → List Attr → Bool × Bool
record_component allowed [] = (false, false)
record_component allowed (a ∷ attrs) =
    let rest = record_component allowed attrs in
    if list_beq a.key component_key
    then (elim a.value [ text name ↦ (true, is_in name allowed) | other ↦ (false, false) ])
    else rest

-- The loop of WithAttrs.
unfoldable pub attrs_component : List ℕ → List Attr → List ℕ
attrs_component component [] = component
attrs_component component (a ∷ attrs) =
    let rest = attrs_component component attrs in
    if list_beq a.key component_key
    then (elim a.value [ text name ↦ name | other ↦ rest ])
    else rest

module _ (H : Type 0) (slog : SlogHandler H) where
  pub record ComponentFilterHandler : Type 0 where
    pub next : H
    pub allowed : List (List ℕ)
    pub component : List ℕ

  unfoldable pub new_component_filter_handler : H → List (List ℕ) → ComponentFilterHandler
  new_component_filter_handler next allowed_components = record {
    next = next;
    allowed = allowed_components;
    component = [];
  }

  unfoldable pub enabled : ComponentFilterHandler → ℕ → Bool
  enabled h level = slog.enabled_at h.next level

  unfoldable pub handle : ComponentFilterHandler → Record → Handled
  unfolding is_in record_component
  handle h r =
      let found : Bool × Bool = record_component h.allowed r.attrs in
      if ltb 0 (length h.component)
      then (if is_in h.component h.allowed then passed (slog.handle_record h.next r) else dropped)
      else if found.0 && not found.1
      then dropped
      else passed (slog.handle_record h.next r)

  unfoldable pub with_attrs : ComponentFilterHandler → List Attr → ComponentFilterHandler
  unfolding attrs_component
  with_attrs h attrs = record {
    next = slog.with_attrs_of h.next attrs;
    allowed = h.allowed;
    component = attrs_component h.component attrs;
  }

  unfoldable pub with_group : ComponentFilterHandler → List ℕ → ComponentFilterHandler
  with_group h name = record {
    next = slog.with_group_of h.next name;
    allowed = h.allowed;
    component = h.component;
  }

  -- The handler of NewLoggerFromConfig: the base handler of slog, or the filter around it.
  pub data Logger : Type 0 where
    plain : H → Logger
    filtered : ComponentFilterHandler → Logger

  -- LoggingConfig
  pub record LoggingConfig : Type 0 where
    pub level_name : List ℕ
    pub components : List (List ℕ)
    pub format : List ℕ

-- slog's levels, shifted up by 4: debug is -4.
abbrev level_debug : ℕ
level_debug = 0

abbrev pub level_info : ℕ
level_info = 4

abbrev level_warn : ℕ
level_warn = 8

abbrev level_error : ℕ
level_error = 12

unfoldable pub parse_log_level : List ℕ → ℕ
parse_log_level level =
    if list_beq level (100 ∷ 101 ∷ 98 ∷ 117 ∷ 103 ∷ [])
    then level_debug
    else if list_beq level (119 ∷ 97 ∷ 114 ∷ 110 ∷ [])
    then level_warn
    else if list_beq level (101 ∷ 114 ∷ 114 ∷ 111 ∷ 114 ∷ [])
    then level_error
    else level_info

-- `base` is slog.NewJSONHandler (when its first argument is true) or slog.NewTextHandler on stderr.
unfoldable pub new_logger_from_config :
    (H : Type 0) (slog : SlogHandler H) → (Bool → ℕ → H) → LoggingConfig H slog → Logger H slog
unfolding new_component_filter_handler parse_log_level
new_logger_from_config H slog base cfg =
    let handler =
      base (list_beq cfg.format (106 ∷ 115 ∷ 111 ∷ 110 ∷ [])) (parse_log_level cfg.level_name) in
    if ltb 0 (length cfg.components)
    then filtered (new_component_filter_handler H slog handler cfg.components)
    else plain handler
