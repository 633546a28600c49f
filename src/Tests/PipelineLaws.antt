-- ===== src/Tests/PipelineLaws.antt =====
-- The theorems on the routers and the collector together at concrete inputs: requests on both sides,
-- turns between them, and three turns before `Stop`.
use tracing_proxy.Base.{◌≡◌, refl, List, [], ◌∷◌, arith}
use tracing_proxy.Base.Dict.{lookup}
use tracing_proxy.Route.{Side}
use tracing_proxy.Collect.Weight.{weight}
use tracing_proxy.Collect.Loop.{stop}
use tracing_proxy.Pipeline.{Act, Ready, System, acts, turns}
use tracing_proxy.Pipeline.Delivers.{let_in}
use tracing_proxy.Pipeline.Drains.{start_system, waiting, weight-stop-turns}
use tracing_proxy.Tests.{
  long_traces, all_records, insertion_sort, insertion_sort-Sorts, dry_config, empty_trace, one,
}
use tracing_proxy.Tests.RouteLaws.{two_processes, event_of}

abbrev asked : List Act
asked =
    Act.request Side.incoming (event_of "near")
    ∷ Act.request Side.peer (event_of "far")
    ∷ Act.turned dry_config 3 (Ready.ticked 5000)
    ∷ Act.request Side.incoming (event_of "far")
    ∷ Act.request Side.incoming (event_of "near")
    ∷ Act.turned dry_config 4 (Ready.ticked 10)
    ∷ []

abbrev started : System long_traces all_records
started =
    start_system long_traces all_records insertion_sort two_processes 3 "host" (λ _. empty_trace "")
      []

abbrev served : System long_traces all_records
served = acts long_traces all_records insertion_sort two_processes asked started

two_waiting : waiting served.outlets ≡ 2
unfolding acts start_system lookup
two_waiting = refl

weight-stop-turns_example :
    weight one
      (stop long_traces all_records insertion_sort dry_config
        (turns long_traces all_records insertion_sort two_processes 3 dry_config 5
          served).collector).enqueued
    ≡ let_in one long_traces all_records insertion_sort two_processes asked started
weight-stop-turns_example =
    weight-stop-turns long_traces all_records insertion_sort two_processes insertion_sort-Sorts one
      asked 3 "host" (λ _. empty_trace "") [] 3 dry_config 5 (refl, (refl, tt)) refl
      (omega (arith, two_waiting))
