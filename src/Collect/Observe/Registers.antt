-- ===== src/Collect/Observe/Registers.antt =====
-- The metrics that `Start` of collect/collect.go registers, and that the labels with which `send`
-- writes them are those that they have there.
pub mod Fits
pub mod Goes
pub mod Holds
pub mod Keeps
pub mod Writes
use tracing_proxy.Types.{Span}
use tracing_proxy.Collect.Observe.{Printer, observe_span}
use tracing_proxy.Base.{ℕ, String, List, [], ◌∷◌, ◌++◌, Option, none, some, map}
use tracing_proxy.Base.Dict.{lookup}
use tracing_proxy.Base.Fallible.{◌>>=◌}
use tracing_proxy.Metrics.{Library, Metrics, histogram, Collector}
use tracing_proxy.Metrics.Creates.{Op, registers, describes, registers_vector, perform}
use tracing_proxy.Collect.Send.{Reason, metric}

abbrev pub operation_labels : List String
operation_labels =
    "service_name" ∷ "operation" ∷ "app" ∷ "instance" ∷ "transaction_type" ∷ "transaction_category"
    ∷ "transaction_sub_category" ∷ "language" ∷ []

-- the metrics without labels
unfoldable pub register_plain : List Op
unfolding metric
register_plain =
    registers "trace_duration_ms" "histogram"
    ∷ registers "trace_spans_count_total" "histogram"
    ∷ registers "collector_tosend_queue" "histogram"
    ∷ registers "collector_incoming_queue" "histogram"
    ∷ registers "collector_peer_queue" "histogram"
    ∷ registers "collector_cache_size" "gauge"
    ∷ registers "memory_heap_allocation" "gauge"
    ∷ registers "trace_sent_cache_hit" "counter"
    ∷ registers "trace_accepted" "counter"
    ∷ registers "trace_send_kept" "counter"
    ∷ registers "trace_send_dropped" "counter"
    ∷ registers "trace_send_has_root" "counter"
    ∷ registers "trace_send_no_root" "counter"
    ∷ registers (metric Reason.got_root) "counter"
    ∷ registers (metric Reason.expired) "counter"
    ∷ registers (metric Reason.ejected_full) "counter"
    ∷ registers (metric Reason.ejected_memsize) "counter"
    ∷ []

-- the metrics with labels
unfoldable pub register_labelled : List Op
register_labelled =
    describes "trace_operations_latency_ms" "gauge" operation_labels
    ∷ describes "trace_operations_failed" "counter" operation_labels
    ∷ describes "trace_operations_succeeded" "counter" operation_labels
    ∷ describes "trace_operations_total" "counter" operation_labels
    ∷ describes "trace_root_span" "counter" operation_labels
    ∷ describes "trace_spans_count" "counter" operation_labels
    ∷ describes "trace_root_operation_latency_ms" "gauge" operation_labels
    ∷ describes "trace_root_operations_failed" "counter" operation_labels
    ∷ describes "trace_operations_error" "gauge" operation_labels
    ∷ registers_vector histogram "trace_operations_latency" operation_labels
    ∷ registers_vector histogram "trace_apdex_latency"
        (operation_labels ++ "apdex_threshold" ∷ "error" ∷ [])
    ∷ registers_vector histogram "trace_root_operation_latency" operation_labels
    ∷ describes "trace_response_http_status" "counter" ("method" ∷ "status_code" ∷ operation_labels)
    ∷ describes "trace_response_grpc_status" "counter" ("status_code" ∷ operation_labels)
    ∷ []

unfoldable pub register_metrics : List Op
unfolding register_plain register_labelled
register_metrics = register_plain ++ register_labelled

-- the calls in their order
unfoldable pub perform_each : Library → List Op → Metrics → Option Metrics
unfolding perform
perform_each lib [] p = some p
perform_each lib (o ∷ os) p = perform lib o p >>= perform_each lib os

-- The collector and the labels of a metric, which no write changes.
abbrev pub Shape : Type 0
Shape = Option (Option Collector × List String)

abbrev pub shape : Metrics → String → Shape
shape p name = elim (lookup name p.metrics) [ none ↦ none | some d ↦ some (d.collector, d.labels) ]

-- The loop of `send` over the spans with its writes, which panic where the library does. The writes
-- of a span follow what is read of it; they read nothing that these write.
unfoldable pub write_spans : Library → Printer → List Span → ℕ → Metrics → Option Metrics
unfolding observe_span perform_each
write_spans lib printer [] now p = some p
write_spans lib printer (sp ∷ sps) now p = observe_span printer sp now >>= λ ops.
    perform_each lib ops p >>= write_spans lib printer sps now
