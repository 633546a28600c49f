-- ===== src/Convert/Translate/Panics.antt =====
-- When `TranslateTraceRequest` of pkg/convert/traces.go panics.
use tracing_proxy.Base.{
  ◌≡◌, ◌≢◌, ◌↔◌, ◌⊎◌, inl, inr, String, List, [], ◌∷◌, ◌++◌, Option, none, some, Bool, same_text,
  same_text_iff, Bool-cases, if◌then◌else◌,
}
use tracing_proxy.Base.Fallible.{AnyOf, IfSome, bind_iff, some_iff, twice_iff, last_iff, split_iff}
use tracing_proxy.Convert.Values.{
  Attribute, Encoder, get_value, put_value, add_attribute, add_attributes_to_map,
}
use tracing_proxy.Convert.Values.Panics.{Misses, get_value_iff, mapped_iff}
use tracing_proxy.Convert.Classification.{Classification, classify_scope, classify_resource}
use tracing_proxy.Convert.Messages.{OtlpEvent, OtlpSpan, Scope, ScopeSpans, ResourceSpans, Tools}
use tracing_proxy.Convert.Translate.{
  ValueMap, EventLoop, own_attributes, translate_event, translate_events, get_scope_attributes,
  get_resource_attributes, put_error, normalize_instance, normalize_service,
}
use tracing_proxy.Convert.Translate.Request.{
  Shared, span_loop, translate_span, translate_spans, translate_scopes, translate_resource,
  translate_trace_request, resource_attributes, scope_key_values, resource_key_values,
}

-- The attribute is read, and holds somewhere a key without a value.
abbrev pub Breaks : Attribute → Type 0
Breaks (key, none) = ⊥
Breaks (key, some v) = (key ≢ "") × Misses v

-- The events of a span are read only if they are to be sent.
abbrev pub SpanBreaks : Bool → OtlpSpan → Type 0
SpanBreaks send_events span =
    AnyOf Breaks span.attributes
    ⊎ AnyOf (λ e. AnyOf Breaks e.attributes) (if send_events then span.events else [])

abbrev pub ScopeBreaks : Bool → ScopeSpans → Type 0
ScopeBreaks send_events s =
    IfSome (λ scope. AnyOf Breaks scope.attributes) s.scope ⊎ AnyOf (SpanBreaks send_events) s.spans

abbrev pub ResourceBreaks : Bool → ResourceSpans → Type 0
ResourceBreaks send_events rs =
    IfSome (AnyOf Breaks) rs.resource ⊎ AnyOf (ScopeBreaks send_events) rs.scope_spans

module _ (E : Encoder) where
  add_attribute_iff : (a : Attribute) (m : ValueMap) → (add_attribute E a m ≡ none) ↔ Breaks a
  unfolding add_attribute
  add_attribute_iff (key, none) m = (λ e. cc e, λ h. absurd h)
  add_attribute_iff (key, some v) m = elim (Bool-cases (same_text key "")) [
    | inl named ↦ rw named (λ e. cc e, λ h. absurd (h.0 ((same_text_iff key "").0 named)))
    | inr named ↦
        let (a, b) = mapped_iff (λ r. put_value key r m) (get_value E v) in
        let (c, d) = get_value_iff E v in
        rw named (λ e. (λ p. cc ((same_text_iff key "").1 p, named), c (a e)), λ h. b (d h.1))
  ]

  add_attributes_to_map_iff :
      (attrs : List Attribute) (m : ValueMap)
      → (add_attributes_to_map E attrs m ≡ none) ↔ AnyOf Breaks attrs
  unfolding add_attributes_to_map
  add_attributes_to_map_iff [] m = some_iff m
  add_attributes_to_map_iff (a ∷ rest) m =
      bind_iff (add_attribute E a m) (add_attributes_to_map E rest) (add_attribute_iff a m)
        (λ m'. add_attributes_to_map_iff rest m')

module _ (tools : Tools) where
  open tools use {encoder}

  own_attributes_iff :
      (known : Option Classification) (attrs : List Attribute) (error : Bool)
      → (own_attributes tools known attrs error ≡ none) ↔ AnyOf Breaks attrs
  unfolding own_attributes
  own_attributes_iff known [] error = some_iff (put_error error [])
  own_attributes_iff known (a ∷ rest) error = last_iff (
      bind_iff (add_attributes_to_map encoder (a ∷ rest) (put_error error [])) _
        (add_attributes_to_map_iff encoder (a ∷ rest) (put_error error [])) (λ m. some_iff _))

  translate_event_iff :
      (resource_map : ValueMap) (span : OtlpSpan) (e : OtlpEvent) (l : EventLoop)
      → (translate_event tools resource_map span e l ≡ none) ↔ AnyOf Breaks e.attributes
  unfolding translate_event
  translate_event_iff resource_map span e l = last_iff (
      twice_iff (
        bind_iff _ _ (add_attributes_to_map_iff encoder e.attributes l.event_attributes) (λ all.
          bind_iff _ _ (add_attributes_to_map_iff encoder e.attributes []) (λ own. some_iff _))))

  translate_events_iff :
      (resource_map : ValueMap) (span : OtlpSpan) (es : List OtlpEvent) (l : EventLoop)
      → (translate_events tools resource_map span es l ≡ none)
        ↔ AnyOf (λ e. AnyOf Breaks e.attributes) es
  unfolding translate_events
  translate_events_iff resource_map span [] l = some_iff l
  translate_events_iff resource_map span (e ∷ es) l =
      bind_iff _ _ (translate_event_iff resource_map span e l)
        (λ l'. translate_events_iff resource_map span es l')

  translate_span_iff :
      (send_events : Bool) (shared : Shared) (scope_attrs : ValueMap)
      (known : Option Classification) (span : OtlpSpan)
      → (translate_span tools send_events shared scope_attrs known span ≡ none)
        ↔ SpanBreaks send_events span
  unfolding translate_span span_loop
  translate_span_iff send_events (ra, resource_map, lacks) sa known span =
      let (a, b) = mapped_iff _ (span_loop tools send_events resource_map lacks sa known span _) in
      let (c, d) = bind_iff _ _ (own_attributes_iff known span.attributes _) (λ own.
        translate_events_iff resource_map span (if send_events then span.events else []) _) in
      (λ e. c (a e), λ h. b (d h))

  translate_spans_iff :
      (send_events : Bool) (shared : Shared) (scope_attrs : ValueMap)
      (known : Option Classification) (spans : List OtlpSpan)
      → (translate_spans tools send_events shared scope_attrs known spans ≡ none)
        ↔ AnyOf (SpanBreaks send_events) spans
  unfolding translate_spans
  translate_spans_iff send_events shared sa known [] = some_iff []
  translate_spans_iff send_events shared sa known (span ∷ spans) =
      bind_iff _ _ (translate_span_iff send_events shared sa known span) (λ ev.
        last_iff (
          bind_iff _ _ (translate_spans_iff send_events shared sa known spans) (λ evs. some_iff _)))

  get_scope_attributes_iff :
      (scope : Option Scope)
      → (get_scope_attributes tools scope ≡ none) ↔ IfSome (λ s. AnyOf Breaks s.attributes) scope
  unfolding get_scope_attributes
  get_scope_attributes_iff none = some_iff []
  get_scope_attributes_iff (some scope) = add_attributes_to_map_iff encoder scope.attributes _

  get_resource_attributes_iff :
      (resource : Option (List Attribute))
      → (get_resource_attributes tools resource ≡ none) ↔ IfSome (AnyOf Breaks) resource
  unfolding get_resource_attributes
  get_resource_attributes_iff none = some_iff []
  get_resource_attributes_iff (some attrs) = add_attributes_to_map_iff encoder attrs []

  resource_attributes_iff :
      (additional : ValueMap) (resource : Option (List Attribute))
      → (resource_attributes tools additional resource ≡ none) ↔ IfSome (AnyOf Breaks) resource
  unfolding resource_attributes
  resource_attributes_iff additional none = some_iff _
  resource_attributes_iff additional (some attrs) = add_attributes_to_map_iff encoder attrs _

  translate_scopes_iff :
      (send_events : Bool) (shared : Shared) (known : Option Classification)
      (scopes : List ScopeSpans)
      → (translate_scopes tools send_events shared known scopes ≡ none)
        ↔ AnyOf (ScopeBreaks send_events) scopes
  unfolding translate_scopes
  translate_scopes_iff send_events shared known [] = some_iff []
  translate_scopes_iff send_events shared known (s ∷ rest) = split_iff (
      bind_iff _ _ (get_scope_attributes_iff s.scope) (λ sa.
        bind_iff _ _
          (translate_spans_iff send_events shared sa
            (classify_scope tools.normal known (scope_key_values s.scope)) s.spans)
          (λ evs. last_iff (
            bind_iff _ _ (translate_scopes_iff send_events shared known rest)
              (λ more. some_iff (evs ++ more))))))

  translate_resource_iff :
      (dataset : String) (additional : ValueMap) (send_events : Bool) (rs : ResourceSpans)
      → (translate_resource tools dataset additional send_events rs ≡ none)
        ↔ ResourceBreaks send_events rs
  unfolding translate_resource
  translate_resource_iff dataset additional send_events rs = twice_iff (
      bind_iff _ _ (get_resource_attributes_iff rs.resource) (λ ra.
        bind_iff _ _ (resource_attributes_iff additional rs.resource) (λ m. last_iff (
          bind_iff _ _
            (translate_scopes_iff send_events
              (let (resource_map, lacks) = normalize_instance (normalize_service m) in
                (ra, resource_map, lacks))
              (classify_resource tools.normal (resource_key_values rs.resource)) rs.scope_spans)
            (λ evs. some_iff _)))))

  -- `TranslateTraceRequest` panics exactly if some attribute with a key that is not empty, of
  -- a resource, a scope, a span or, if span events are sent, an event of a span, holds at any
  -- depth a list of keys and values in which a key has no value.
  pub translate_trace_request_iff :
      (dataset : String) (additional : ValueMap) (send_events : Bool) (rss : List ResourceSpans)
      → (translate_trace_request tools dataset additional send_events rss ≡ none)
        ↔ AnyOf (ResourceBreaks send_events) rss
  unfolding translate_trace_request
  translate_trace_request_iff dataset additional send_events [] = some_iff []
  translate_trace_request_iff dataset additional send_events (rs ∷ rest) =
      bind_iff _ _ (translate_resource_iff dataset additional send_events rs) (λ b. last_iff (
        bind_iff _ _ (translate_trace_request_iff dataset additional send_events rest)
          (λ bs. some_iff _)))
