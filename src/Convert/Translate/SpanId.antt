-- ===== src/Convert/Translate/SpanId.antt =====
-- The trace ID of an event that pkg/convert/traces.go makes of one span.
use tracing_proxy.Base.{
  ℕ, ◌≡◌, ◌≢◌, refl, ◌∙◌, sym, ap, String, List, Option, none, some, Bool, true, false, if_neg,
  text_discrete, same_text, same_text_iff, Bool-cases, inl, inr, Option-cases,
}
use tracing_proxy.Base.Int.{ℤ}
use tracing_proxy.Base.Dict.{lookup, insert}
use tracing_proxy.Types.{Value}
use tracing_proxy.Convert.Values.{mapped}
use tracing_proxy.Convert.SampleRate.{get_sample_rate, get_sample_rate_key, get_sample_rate_lem}
use tracing_proxy.Convert.Classification.{Classification}
use tracing_proxy.Convert.Messages.{OtlpSpan, Translated, Tools, to_int64}
use tracing_proxy.Convert.Status.{span_status}
use tracing_proxy.Convert.Translate.{
  ValueMap, put_if_text, put_parent, put_error, base_attributes, event_attributes, trace_id,
  EventLoop, to_fields,
}
use tracing_proxy.Convert.Translate.Request.{
  Shared, span_loop, put_last, finish_span, translate_span,
}
use tracing_proxy.Convert.Translate.Keeps.{lookup-insert_ne, lookup-put_all, IsPlain}

abbrev pub trace_key : String
trace_key = "traceTraceID"

pub library_version-ne : "library.version" ≢ trace_key
library_version-ne e = cc e

pub library_name-ne : "library.name" ≢ trace_key
unfolding same_text
library_name-ne e =
    let differ : false ≡ true = (same_text_iff "library.name" trace_key).1 e in cc differ

pub trace_key-IsPlain : IsPlain trace_key
trace_key-IsPlain = (λ e. cc e, λ e. cc e)

pub put_if_text-keeps :
    (j : String) (s : Option String) (m : ValueMap)
    → j ≢ trace_key
    → lookup trace_key (put_if_text j s m) ≡ lookup trace_key m
unfolding put_if_text
put_if_text-keeps j none m ne = refl
put_if_text-keeps j (some s) m ne = elim (Bool-cases (same_text s "")) [
  | inl e ↦ rw e refl
  | inr e ↦ rw e (lookup-insert_ne trace_key j (Value.text s) m ne)
]

put_error-keeps :
    (error : Bool) (m : ValueMap) → lookup trace_key (put_error error m) ≡ lookup trace_key m
unfolding put_error
put_error-keeps true m = lookup-insert_ne trace_key "error" (Value.bool true) m (λ e. cc e)
put_error-keeps false m = refl

get_sample_rate_key-ne : (attrs : ValueMap) → get_sample_rate_key attrs ≢ trace_key
unfolding get_sample_rate_key
get_sample_rate_key-ne attrs e = elim (Option-cases (lookup "sampleRate" attrs)) [
  | inr (v, found) ↦ cc (rw (found, get_sample_rate_key) at e)
  | inl other ↦ elim (Option-cases (lookup "SampleRate" attrs)) [
    | inr (v, found) ↦ cc (rw (other, found, get_sample_rate_key) at e)
    | inl neither ↦ cc (rw (other, neither, get_sample_rate_key) at e)
  ]
]

attributes_of : Option Translated → Option Value
attributes_of (some ev) = lookup trace_key ev.attributes
attributes_of none = none

module _ (tools : Tools) where
  open tools use {encoder, parse_int32}

  put_parent-keeps :
      (id : Option (List ℕ)) (m : ValueMap)
      → lookup trace_key (put_parent tools id m) ≡ lookup trace_key m
  unfolding put_parent
  put_parent-keeps none m = refl
  put_parent-keeps (some id) m = lookup-insert_ne trace_key "traceParentID" _ m (λ e. cc e)

  base_attributes-trace_id :
      (span : OtlpSpan) (code : ℤ)
      → lookup trace_key (base_attributes tools span code) ≡ some (Value.text (trace_id tools span))
  unfolding base_attributes lookup
  base_attributes-trace_id span code = refl

  event_attributes-trace_id :
      (resource_attrs scope_attrs : ValueMap) (span : OtlpSpan) (status : ℤ × Bool)
      → lookup trace_key resource_attrs ≡ none
      → lookup trace_key scope_attrs ≡ none
      → lookup trace_key (event_attributes tools resource_attrs scope_attrs span status)
        ≡ some (Value.text (trace_id tools span))
  unfolding event_attributes
  event_attributes-trace_id ra sa span (code, error) r s =
      let base = base_attributes tools span code in
      let m1 = put_parent tools span.parent_span_id base in
      let m2 = put_error error m1 in
      let m3 = put_if_text "statusMessage" span.status_message m2 in
      lookup-put_all trace_key sa _ s
      ∙ (lookup-put_all trace_key ra m3 r
          ∙ (put_if_text-keeps "statusMessage" span.status_message m2 (λ e. cc e)
              ∙ (put_error-keeps error m1
                  ∙ (put_parent-keeps span.parent_span_id base
                      ∙ base_attributes-trace_id span code))))

  get_sample_rate-keeps :
      (attrs : ValueMap)
      → lookup trace_key (get_sample_rate parse_int32 attrs).1 ≡ lookup trace_key attrs
  get_sample_rate-keeps attrs =
      (get_sample_rate_lem parse_int32 attrs trace_key (λ e. cc e)).1
      ∙ if_neg (text_discrete (get_sample_rate_key attrs) trace_key) (get_sample_rate_key-ne attrs)
          none (lookup trace_key attrs)

  put_last-keeps :
      (resource_map : ValueMap) (span : OtlpSpan) (l : EventLoop) (m : ValueMap)
      → lookup trace_key (put_last tools resource_map span l m) ≡ lookup trace_key m
  unfolding put_last
  put_last-keeps resource_map span l m =
      let resource = Value.object (to_fields resource_map) in
      let own = Value.object (to_fields l.span_attributes) in
      let events = Value.object (to_fields l.event_attributes) in
      let time = Value.int64 (to_int64 span.start_time_unix_nano) in
      let m1 = insert "resourceAttributes" resource m in
      let m2 = insert "spanAttributes" own m1 in
      lookup-insert_ne trace_key "time" time (insert "eventAttributes" events m2) (λ e. cc e)
      ∙ (lookup-insert_ne trace_key "eventAttributes" events m2 (λ e. cc e)
          ∙ (lookup-insert_ne trace_key "spanAttributes" own m1 (λ e. cc e)
              ∙ lookup-insert_ne trace_key "resourceAttributes" resource m (λ e. cc e)))

  finish_span-keeps :
      (resource_map : ValueMap) (span : OtlpSpan) (rated : ℤ × ValueMap) (o : Option EventLoop)
      (ev : Translated)
      → mapped (finish_span tools resource_map span rated) o ≡ some ev
      → lookup trace_key ev.attributes ≡ lookup trace_key rated.1
  unfolding finish_span attributes_of
  finish_span-keeps resource_map span rated none ev e = absurd (cc e)
  finish_span-keeps resource_map span (rate, m) (some l) ev e =
      ap attributes_of (sym e) ∙ put_last-keeps resource_map span l m

  pub translate_span-trace_id :
      (send_events : Bool) (shared : Shared) (scope_attrs : ValueMap)
      (known : Option Classification) (span : OtlpSpan) (ev : Translated)
      → lookup trace_key shared.0 ≡ none
      → lookup trace_key scope_attrs ≡ none
      → translate_span tools send_events shared scope_attrs known span ≡ some ev
      → lookup trace_key ev.attributes ≡ some (Value.text (trace_id tools span))
  unfolding translate_span
  translate_span-trace_id send_events (ra, resource_map, unknown_instance) sa known span ev r s e =
      let status = span_status tools span.attributes in
      let all = event_attributes tools ra sa span status in
      finish_span-keeps resource_map span (get_sample_rate parse_int32 all)
        (span_loop tools send_events resource_map unknown_instance sa known span status.1) ev e
      ∙ (get_sample_rate-keeps all ∙ event_attributes-trace_id ra sa span status r s)
