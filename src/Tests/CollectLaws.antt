-- ===== src/Tests/CollectLaws.antt =====
-- The theorems on collect/collect.go at concrete inputs.
use tracing_proxy.Base.{ℕ, ◌≡◌, refl, String, List, [], ◌∷◌, some, arith}
use tracing_proxy.Cache.{get, new_in_mem_cache}
use tracing_proxy.Base.Dict.{lookup}
use tracing_proxy.Collect.Fate.{process_span-starts}
use tracing_proxy.Collect.State.{SentRecord, Collector}
use tracing_proxy.Collect.Send.{decorate}
use tracing_proxy.Collect.Process.{process_span, grow, new_trace}
use tracing_proxy.Collect.Weight.{header-decorate, weight}
use tracing_proxy.Collect.Invariant.{IsLive}
use tracing_proxy.Collect.Loop.{stop}
use tracing_proxy.Collect.Enough.{eject-Sends, Sends}
use tracing_proxy.Collect.History.{run, run-start-IsLive, weight-run-stop, start}
use tracing_proxy.Tests.{
  long_traces, all_records, insertion_sort, insertion_sort-Sorts, dry_config, child_span, root_span,
  empty_trace, one, busy, warm, fresh,
}

weight-run-stop_example :
    weight one (stop long_traces all_records insertion_sort dry_config warm).enqueued ≡ 5
weight-run-stop_example =
    weight-run-stop long_traces all_records insertion_sort insertion_sort-Sorts one busy dry_config
      3 "host" (λ _. empty_trace "") [] (refl, (refl, (refl, (refl, (refl, (refl, (refl, tt)))))))
      refl

run-start-IsLive_example : IsLive warm
run-start-IsLive_example =
    run-start-IsLive long_traces all_records insertion_sort insertion_sort-Sorts busy 3 "host"
      (λ _. empty_trace "") []

-- A trace of two spans at every pointer.
abbrev waiting : Collector ℕ (List (String × SentRecord))
waiting = record fresh {
  heap = λ _. record (empty_trace "a") { spans = child_span "a" ∷ root_span "a" ∷ [] };
}

header-decorate_example :
    (decorate dry_config "host" "why" (empty_trace "a") (child_span "a")).header
    ≡ (child_span "a").header
header-decorate_example = header-decorate dry_config "host" "why" (empty_trace "a") (child_span "a")

fresh-IsLive : IsLive fresh
unfolding run
fresh-IsLive =
    run-start-IsLive long_traces all_records insertion_sort insertion_sort-Sorts [] 3 "host"
      (λ _. empty_trace "") []

process_span-starts_example :
    let c' = process_span long_traces all_records dry_config 1 fresh (child_span "a") in
    (get c'.ring "a" ≡ some 0)
    × (c'.heap 0 ≡ grow dry_config 1 (child_span "a") (new_trace dry_config 1 (child_span "a")))
unfolding start new_in_mem_cache get lookup
process_span-starts_example =
    process_span-starts long_traces all_records dry_config 1 fresh (child_span "a") fresh-IsLive
      refl refl

abbrev begun : Collector ℕ (List (String × SentRecord))
begun = process_span long_traces all_records dry_config 1 fresh (child_span "a")

eject-Sends_example :
    Sends long_traces all_records insertion_sort dry_config 5
      (λ q. (warm.heap q).data_size)
      0
      warm
      []
      (0 ∷ 1 ∷ [])
eject-Sends_example =
    eject-Sends long_traces all_records insertion_sort dry_config 5 0 (λ q. (warm.heap q).data_size)
      warm [] (0 ∷ 1 ∷ []) (λ q. refl) (omega arith)
