-- ===== src/Convert/Translate/Ids.antt =====
-- The trace IDs of the events that pkg/convert/traces.go makes of a request.
use tracing_proxy.Base.{
  ◌≡◌, ◌≢◌, ◌∙◌, sym, ap, String, List, [], ◌∷◌, ◌++◌, map, Option, none, some, Bool, inl, inr,
  Option-cases,
}
use mathlib.Core.List.{map-append}
use tracing_proxy.Base.All.{All}
use tracing_proxy.Base.Dict.{lookup}
use tracing_proxy.Types.{Value}
use tracing_proxy.Convert.Values.{Attribute}
use tracing_proxy.Convert.Classification.{Classification, classify_scope, classify_resource}
use tracing_proxy.Convert.Messages.{
  OtlpSpan, Scope, ScopeSpans, ResourceSpans, Translated, Batch, Tools,
}
use tracing_proxy.Convert.Translate.{
  ValueMap, put_if_text, trace_id, get_resource_attributes, get_scope_attributes, normalize_service,
  normalize_instance,
}
use tracing_proxy.Convert.Translate.Request.{
  Shared, scope_key_values, resource_key_values, resource_attributes, translate_span,
  translate_spans, translate_scopes, translate_resource, translate_trace_request,
}
use tracing_proxy.Convert.Translate.Keeps.{lookup-add_attributes_to_map}
use tracing_proxy.Convert.Translate.SpanId.{
  trace_key, trace_key-IsPlain, library_version-ne, library_name-ne, put_if_text-keeps,
  translate_span-trace_id,
}

-- No attribute of the resource or the scope has the key of the trace ID.
abbrev pub Spares : List Attribute → Type 0
Spares = All (λ a. a.0 ≢ trace_key)

abbrev pub ResourceSpares : Option (List Attribute) → Type 0
ResourceSpares none = Unit
ResourceSpares (some attrs) = Spares attrs

abbrev pub ScopeSpares : Option Scope → Type 0
ScopeSpares none = Unit
ScopeSpares (some scope) = Spares scope.attributes

-- Neither the resource nor any of its scopes has an attribute with the key of the trace ID.
abbrev pub SparesKey : ResourceSpans → Type 0
SparesKey rs = ResourceSpares rs.resource × All (λ s. ScopeSpares s.scope) rs.scope_spans

-- What the events and the spans have for the trace ID.
abbrev pub event_ids : List Translated → List (Option Value)
event_ids = map (λ ev. lookup trace_key ev.attributes)

abbrev pub batch_ids : List Batch → List (Option Value)
batch_ids [] = []
batch_ids (b ∷ bs) = event_ids b.events ++ batch_ids bs

events_of : Option Batch → List Translated
events_of (some b) = b.events
events_of none = []

module _ (tools : Tools) where
  open tools use {encoder}

  abbrev pub span_ids : List OtlpSpan → List (Option Value)
  span_ids = map (λ span. some (Value.text (trace_id tools span)))

  translate_spans-ids :
      (send_events : Bool) (shared : Shared) (scope_attrs : ValueMap)
      (known : Option Classification) (spans : List OtlpSpan) (evs : List Translated)
      → lookup trace_key shared.0 ≡ none
      → lookup trace_key scope_attrs ≡ none
      → translate_spans tools send_events shared scope_attrs known spans ≡ some evs
      → event_ids evs ≡ span_ids spans
  unfolding translate_spans
  translate_spans-ids send_events shared sa known [] evs r s e =
      let same : [] ≡ evs = cc e in ap event_ids (sym same)
  translate_spans-ids send_events shared sa known (span ∷ spans) evs r s e =
      elim (Option-cases (translate_span tools send_events shared sa known span)) [
        | inl stuck ↦ absurd (cc (rw (stuck, translate_spans) at e))
        | inr (ev, found) ↦
            elim (Option-cases (translate_spans tools send_events shared sa known spans)) [
              | inl stuck ↦ absurd (cc (rw (found, stuck, translate_spans) at e))
              | inr (rest, more) ↦
                  let both : ev ∷ rest ≡ evs = cc (rw (found, more, translate_spans) at e) in
                  let here =
                    translate_span-trace_id tools send_events shared sa known span ev r s found in
                  let there = translate_spans-ids send_events shared sa known spans rest r s more in
                  ap event_ids (sym both) ∙ cc (here, there)
            ]
      ]

  resource-none :
      (resource : Option (List Attribute)) (m : ValueMap)
      → ResourceSpares resource
      → get_resource_attributes tools resource ≡ some m
      → lookup trace_key m ≡ none
  unfolding get_resource_attributes lookup
  resource-none none m h e = let same : [] ≡ m = cc e in ap (lookup trace_key) (sym same)
  resource-none (some attrs) m h e =
      lookup-add_attributes_to_map encoder trace_key attrs [] m h trace_key-IsPlain e

  scope-none :
      (scope : Option Scope) (m : ValueMap)
      → ScopeSpares scope
      → get_scope_attributes tools scope ≡ some m
      → lookup trace_key m ≡ none
  unfolding get_scope_attributes lookup
  scope-none none m h e = let same : [] ≡ m = cc e in ap (lookup trace_key) (sym same)
  scope-none (some scope) m h e =
      let m1 = put_if_text "library.name" (some scope.name) [] in
      lookup-add_attributes_to_map encoder trace_key scope.attributes
        (put_if_text "library.version" (some scope.version) m1) m h trace_key-IsPlain e
      ∙ (put_if_text-keeps "library.version" (some scope.version) m1 library_version-ne
          ∙ put_if_text-keeps "library.name" (some scope.name) [] library_name-ne)

  abbrev pub scope_ids : List ScopeSpans → List (Option Value)
  scope_ids [] = []
  scope_ids (s ∷ rest) = span_ids s.spans ++ scope_ids rest

  translate_scopes-ids :
      (send_events : Bool) (shared : Shared) (known : Option Classification)
      (scopes : List ScopeSpans) (evs : List Translated)
      → lookup trace_key shared.0 ≡ none
      → All (λ s. ScopeSpares s.scope) scopes
      → translate_scopes tools send_events shared known scopes ≡ some evs
      → event_ids evs ≡ scope_ids scopes
  unfolding translate_scopes
  translate_scopes-ids send_events shared known [] evs r h e =
      let same : [] ≡ evs = cc e in ap event_ids (sym same)
  translate_scopes-ids send_events shared known (s ∷ rest) evs r (here, there) e =
      elim (Option-cases (get_scope_attributes tools s.scope)) [
        | inl stuck ↦ absurd (cc (rw (stuck, translate_scopes) at e))
        | inr (sa, found) ↦
            let known' = classify_scope tools.normal known (scope_key_values s.scope) in
            elim (Option-cases (translate_spans tools send_events shared sa known' s.spans)) [
              | inl stuck ↦ absurd (cc (rw (found, stuck, translate_scopes) at e))
              | inr (own, mine) ↦
                  elim (Option-cases (translate_scopes tools send_events shared known rest)) [
                    | inl stuck ↦ absurd (cc (rw (found, mine, stuck, translate_scopes) at e))
                    | inr (others, more) ↦
                        let joined : own ++ others ≡ evs =
                          cc (rw (found, mine, more, translate_scopes) at e) in
                        let first =
                          translate_spans-ids send_events shared sa known' s.spans own r
                            (scope-none s.scope sa here found) mine in
                        let last =
                          translate_scopes-ids send_events shared known rest others r there more in
                        ap event_ids (sym joined) ∙ (map-append _ own others ∙ cc (first, last))
                  ]
            ]
      ]

  abbrev pub request_ids : List ResourceSpans → List (Option Value)
  request_ids [] = []
  request_ids (rs ∷ rest) = scope_ids rs.scope_spans ++ request_ids rest

  translate_resource-ids :
      (dataset : String) (additional : ValueMap) (send_events : Bool) (rs : ResourceSpans)
      (b : Batch)
      → SparesKey rs
      → translate_resource tools dataset additional send_events rs ≡ some b
      → event_ids b.events ≡ scope_ids rs.scope_spans
  unfolding translate_resource events_of
  translate_resource-ids dataset additional send_events rs b (h, hs) e =
      elim (Option-cases (get_resource_attributes tools rs.resource)) [
        | inl stuck ↦ absurd (cc (rw (stuck, translate_resource) at e))
        | inr (ra, found) ↦ elim (Option-cases (resource_attributes tools additional rs.resource)) [
          | inl stuck ↦ absurd (cc (rw (found, stuck, translate_resource) at e))
          | inr (m, mine) ↦
              let shared : Shared =
                (let (resource_map, lacks) = normalize_instance (normalize_service m) in
                  (ra, resource_map, lacks)) in
              let known = classify_resource tools.normal (resource_key_values rs.resource) in
              elim (Option-cases (translate_scopes tools send_events shared known rs.scope_spans)) [
                | inl stuck ↦ absurd (cc (rw (found, mine, stuck, translate_resource) at e))
                | inr (evs, more) ↦
                    let same : evs ≡ b.events =
                      ap events_of (rw (found, mine, more, translate_resource) at e) in
                    ap event_ids (sym same)
                    ∙ translate_scopes-ids send_events shared known rs.scope_spans evs
                        (resource-none rs.resource ra h found) hs more
              ]
        ]
      ]

  -- If no attribute of a resource or a scope has the key `traceTraceID`, and
  -- `TranslateTraceRequest` answers batches, then their events, in order, have under
  -- `traceTraceID` just what `BytesToTraceID` gives for the spans of the request, in order.
  -- So there is one event for each span, under its trace ID.
  pub translate_trace_request-ids :
      (dataset : String) (additional : ValueMap) (send_events : Bool) (rss : List ResourceSpans)
      (bs : List Batch)
      → All SparesKey rss
      → translate_trace_request tools dataset additional send_events rss ≡ some bs
      → batch_ids bs ≡ request_ids rss
  unfolding translate_trace_request
  translate_trace_request-ids dataset additional send_events [] bs h e =
      let same : [] ≡ bs = cc e in ap batch_ids (sym same)
  translate_trace_request-ids dataset additional send_events (rs ∷ rest) bs (here, there) e =
      elim (Option-cases (translate_resource tools dataset additional send_events rs)) [
        | inl stuck ↦ absurd (cc (rw (stuck, translate_trace_request) at e))
        | inr (b, mine) ↦
            elim (Option-cases
              (translate_trace_request tools dataset additional send_events rest)) [
                | inl stuck ↦ absurd (cc (rw (mine, stuck, translate_trace_request) at e))
                | inr (others, more) ↦
                    let joined : b ∷ others ≡ bs =
                      cc (rw (mine, more, translate_trace_request) at e) in
                    let first =
                      translate_resource-ids dataset additional send_events rs b here mine in
                    let last =
                      translate_trace_request-ids dataset additional send_events rest others there
                        more in
                    ap batch_ids (sym joined) ∙ cc (first, last)
              ]
      ]
