-- ===== src/Protorun/Logging/Filter.antt =====
-- pkg/protorun/logging.go: which records a logger shows, against a description that does not walk.
use go_simple_protocol_runti.Common.{
  ℕ, ◌≡◌, refl, ap, ◌∙◌, List, [], ◌∷◌, Bool, true, not, ◌&&◌, ◌||◌, Option, none, some,
  if◌then◌else◌, ◌==◌, nat_eq, ltb, length, list_beq, arith,
}
use go_simple_protocol_runti.Protorun.Logging.{
  Value, text, other, Attr, Record, component_key, SlogHandler, Handled, dropped, passed, is_in,
  record_component, attrs_component, ComponentFilterHandler, new_component_filter_handler, enabled,
  handle, with_attrs, with_group, Logger, plain, filtered, LoggingConfig, new_logger_from_config,
  parse_log_level,
}

-- How a logger was derived: slog's With and WithGroup, first call first.
pub data Derivation : Type 0 where
  attributes : List Attr → Derivation
  group : List ℕ → Derivation

-- The value of the first attribute called "component".
abbrev component_value : List Attr → Option Value
component_value [] = none
component_value (a ∷ attrs) =
    let later = component_value attrs in
    if list_beq a.key component_key then some a.value else later

-- The first attribute called "component" that is a string.
abbrev component_text : List Attr → Option (List ℕ)
component_text [] = none
component_text (a ∷ attrs) =
    let later = component_text attrs in
    if list_beq a.key component_key
    then (elim a.value [ text name ↦ some name | other ↦ later ])
    else later

-- The component of the last derivation that names one.
abbrev pub own_component : List Derivation → Option (List ℕ)
own_component [] = none
own_component (attributes attrs ∷ ds) = elim (own_component ds) [
  | some name ↦ some name
  | none ↦ component_text attrs
]
own_component (group name ∷ ds) = own_component ds

abbrev record_shown : List (List ℕ) → Option Value → Bool
record_shown allowed none = true
record_shown allowed (some (text name)) = is_in name allowed
record_shown allowed (some other) = true

-- A logger with a component shows its records if the component is allowed; one without, or with the
-- empty name, goes by the record's own attribute, and shows a record with no string there.
abbrev pub shown : List (List ℕ) → Option (List ℕ) → List Attr → Bool
shown allowed none attrs = record_shown allowed (component_value attrs)
shown allowed (some []) attrs = record_shown allowed (component_value attrs)
shown allowed (some (c ∷ name)) attrs = is_in (c ∷ name) allowed

module _ (H : Type 0) (slog : SlogHandler H) where
  abbrev pub derive_base : List Derivation → H → H
  derive_base [] h = h
  derive_base (attributes attrs ∷ ds) h = derive_base ds (slog.with_attrs_of h attrs)
  derive_base (group name ∷ ds) h = derive_base ds (slog.with_group_of h name)

  abbrev derive_filter :
      List Derivation → ComponentFilterHandler H slog → ComponentFilterHandler H slog
  derive_filter [] h = h
  derive_filter (attributes attrs ∷ ds) h = derive_filter ds (with_attrs H slog h attrs)
  derive_filter (group name ∷ ds) h = derive_filter ds (with_group H slog h name)

  -- A logger of NewLoggerFromConfig, derived, that is given a record: slog's Logger asks the handler
  -- whether the level is enabled before it hands the record over.
  abbrev pub log : Logger H slog → List Derivation → Record → Handled
  log (plain h) ds r =
      if slog.enabled_at (derive_base ds h) r.level
      then passed (slog.handle_record (derive_base ds h) r)
      else dropped
  log (filtered h) ds r =
      if enabled H slog (derive_filter ds h) r.level
      then handle H slog (derive_filter ds h) r
      else dropped

  abbrev or_else : Option (List ℕ) → List ℕ → List ℕ
  or_else none component = component
  or_else (some name) component = name

  attrs_component_lem :
      (component : List ℕ) (attrs : List Attr)
      → attrs_component component attrs ≡ or_else (component_text attrs) component
  unfolding attrs_component
  attrs_component_lem component [] = refl
  attrs_component_lem component (a ∷ attrs) = ground (arith, attrs_component_lem component attrs)

  derived :
      (ds : List Derivation) (h : ComponentFilterHandler H slog)
      → derive_filter ds h ≡ record {
        next = derive_base ds h.next;
        allowed = h.allowed;
        component = or_else (own_component ds) h.component;
      }
  unfolding with_attrs with_group
  derived [] h = refl
  derived (attributes attrs ∷ ds) h =
      derived ds (with_attrs H slog h attrs)
      ∙ rw (attrs_component_lem h.component attrs) (ground arith)
  derived (group name ∷ ds) h = derived ds (with_group H slog h name)

  record_component_lem :
      (allowed : List (List ℕ)) (attrs : List Attr)
      → not ((record_component allowed attrs).0 && not (record_component allowed attrs).1)
        ≡ record_shown allowed (component_value attrs)
  unfolding record_component
  record_component_lem allowed [] = refl
  record_component_lem allowed (a ∷ attrs) = ground (arith, record_component_lem allowed attrs)

  handle-shown :
      (o : Option (List ℕ)) (next : H) (allowed : List (List ℕ)) (r : Record)
      → handle H slog (record { next = next; allowed = allowed; component = or_else o [] }) r
        ≡ (if shown allowed o r.attrs then passed (slog.handle_record next r) else dropped)
  unfolding handle
  handle-shown none next allowed r = ground (arith, record_component_lem allowed r.attrs)
  handle-shown (some []) next allowed r = ground (arith, record_component_lem allowed r.attrs)
  handle-shown (some (c ∷ name)) next allowed r = ground arith

  -- The handler of slog that NewLoggerFromConfig makes, with the configuration's format and level.
  abbrev pub base_of : (Bool → ℕ → H) → LoggingConfig H slog → H
  base_of base cfg =
      base (list_beq cfg.format (106 ∷ 115 ∷ 111 ∷ 110 ∷ [])) (parse_log_level cfg.level_name)

  -- NewLoggerFromConfig's logger, derived by any calls of With and WithGroup, hands a record to slog's
  -- handler, derived by the same calls, exactly if that handler is enabled at the record's level and
  -- the configuration lists no components or the record is shown by the rule of `shown`: by the logger's
  -- own component, the last one named, or else by the record's first attribute of that key, where a
  -- record with no component at all is shown. Every other record is dropped.
  pub log-new_logger_from_config :
      (base : Bool → ℕ → H) (cfg : LoggingConfig H slog) (ds : List Derivation) (r : Record)
      → log (new_logger_from_config H slog base cfg) ds r ≡ (
          if slog.enabled_at (derive_base ds (base_of base cfg)) r.level
            && ((length cfg.components == 0) || shown cfg.components (own_component ds) r.attrs)
          then passed (slog.handle_record (derive_base ds (base_of base cfg)) r)
          else dropped)
  unfolding new_logger_from_config new_component_filter_handler handle enabled
  log-new_logger_from_config base cfg ds r = go cfg.components
    where
      under : H
      under = base_of base cfg

      on : Bool
      on = slog.enabled_at (derive_base ds under) r.level

      go :
          (components : List (List ℕ))
          → log
              (if ltb 0 (length components)
                then filtered (new_component_filter_handler H slog under components)
                else plain under)
              ds
              r
            ≡ (if on && ((length components == 0) || shown components (own_component ds) r.attrs)
                then passed (slog.handle_record (derive_base ds under) r)
                else dropped)
      go [] = ground arith
      go (c ∷ components) =
          let filter = new_component_filter_handler H slog under (c ∷ components) in
          let after = derived ds filter in
          let told : handle H slog (derive_filter ds filter) r ≡ (
              if shown (c ∷ components) (own_component ds) r.attrs
              then passed (slog.handle_record (derive_base ds under) r)
              else dropped) =
            ap (λ (h : ComponentFilterHandler H slog). handle H slog h r) after
            ∙ handle-shown (own_component ds) (derive_base ds under) (c ∷ components) r in
          let level : enabled H slog (derive_filter ds filter) r.level ≡ on =
            ap (λ (h : ComponentFilterHandler H slog). enabled H slog h r.level) after in
          let both : log (filtered filter) ds r ≡ (
              if on
              then (if shown (c ∷ components) (own_component ds) r.attrs
                  then passed (slog.handle_record (derive_base ds under) r)
                  else dropped)
              else dropped) =
            ap (λ (b : Bool). if b then handle H slog (derive_filter ds filter) r else dropped)
              level
            ∙ ap (λ (h : Handled). if on then h else dropped) told in
          ground (arith, both)
