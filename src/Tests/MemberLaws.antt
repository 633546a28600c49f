-- ===== src/Tests/MemberLaws.antt =====
-- The theorems on internal/redimem/redimem.go, sample/deterministic.go and
-- sample/trace_key.go, and on sample/dynamic.go, at concrete inputs.
use Prim.Native.String.{len}
use tracing_proxy.Base.{
  map, ◌+◌, ◌<◌, ℕ, Result, ◌*◌, ◌≡◌, ◌≢◌, ◌↔◌, ◌⊎◌, ◌≤◌, refl, String, List, [], ◌∷◌, some, true,
  false, arith, ◌==◌, if◌then◌else◌,
}
use tracing_proxy.Base.Int.{ℤ, pos}
use tracing_proxy.Base.All.{IsPermutation}
use tracing_proxy.Types.{Value}
use tracing_proxy.Members.{Redis, Outcome, scan, get_members}
use tracing_proxy.Members.Scans.{scan-some}
use tracing_proxy.Members.Union.{Climbs, Has, Named, get_members_iff}
use tracing_proxy.Sample.Deterministic.{
  DeterministicSampler, start, get_sample_rate, get_sample_rate-start,
}
use tracing_proxy.Sample.TraceKey.{TraceKey, Printers, build, build-permute, build_and_add}
use tracing_proxy.Sample.Dynamic.{Dynsampler, DynamicSampler, is_below_one}
use tracing_proxy.Sample.Dynamic as Dynamic
use tracing_proxy.Sample.Dynamic.Rates.{decide, decide-rate}
use tracing_proxy.Collect.Send.{mark_span}
use tracing_proxy.Tests.{empty_trace, child_span, root_span}
use tracing_proxy.Tests.Texts.{sort_texts, sort_texts_lem, sort_texts-permute}

-- A server with two pages, and a clock that counts the steps.
abbrev two_pages : Redis
two_pages = record {
  scan = λ i cursor.
      if i == 0
      then Result.ok (record { cursor = "17"; keys = "b" ∷ [] })
      else Result.ok (record { cursor = "0"; keys = "a" ∷ [] });
  clock = λ i. i;
}

scan-some_example : (r : List String × Outcome) × (scan two_pages 5 7 ≡ some r)
scan-some_example = scan-some two_pages 5 (λ i. omega arith)

abbrev two_answers : List (Result String (List String))
two_answers = Result.ok ("b" ∷ "" ∷ "a" ∷ []) ∷ Result.ok ("a" ∷ "c" ∷ []) ∷ []

b_named : ◌≢◌ {A = String} "b" ""
b_named e = absurd (cc e)

get_members_iff_example :
    Climbs "" ("a" ∷ "b" ∷ "c" ∷ []) × (Has "b" ("a" ∷ "b" ∷ "c" ∷ []) ↔ Named "b" two_answers)
unfolding get_members
get_members_iff_example =
    get_members_iff sort_texts sort_texts_lem two_answers ("a" ∷ "b" ∷ "c" ∷ []) "b" refl b_named

get_sample_rate-start_example :
    (d : DeterministicSampler) × (start (ℤ.pos 10) ≡ some d)
    × (((get_sample_rate len d (empty_trace "t")).1 ≡ true)
        ↔ (◌≡◌ {A = ℕ} 10 1 ⊎ (17 * 10 ≤ 4294967295)))
get_sample_rate-start_example =
    get_sample_rate-start len 10 (empty_trace "t") (omega arith) (omega arith)

abbrev printers : Printers
printers = record {
  print = λ v. elim v [ Value.text s ↦ s | _ ↦ "" ];
  format_int = λ n. "n";
  sort = sort_texts;
}

abbrev by_name : TraceKey
by_name = record {
  fields = "name" ∷ "parentId" ∷ [];
  use_trace_length = true;
  add_dynsample_key = false;
  add_dynsample_field = "";
}

build-permute_example :
    build printers by_name (root_span "t" ∷ child_span "t" ∷ [])
    ≡ build printers by_name (child_span "t" ∷ root_span "t" ∷ [])
build-permute_example =
    build-permute printers sort_texts-permute by_name (root_span "t" ∷ child_span "t" ∷ [])
      (child_span "t" ∷ root_span "t" ∷ []) (IsPermutation.swap (root_span "t") (child_span "t") [])

-- a sampler of the package that counts up
abbrev counting : Dynsampler
counting = record { State = ℕ; new = λ c. 0; get_sample_rate = λ n key. (pos n, n + 1) }

abbrev dynamic : DynamicSampler counting printers
dynamic = record { key = by_name; dynsampler = 4; prefix = "dynamic/" }

zero-below : (n : ℕ) → 1 ≤ n → 0 < n
zero-below n h = omega (arith, h)

decide-rate_example :
    let r = decide counting printers (λ n. 0) dynamic (empty_trace "t") in
    let (key, _) = build_and_add printers by_name (empty_trace "t") in
    let (answer, _) = counting.get_sample_rate 4 key in
    (1 ≤ r.rate)
    × ((is_below_one answer ≡ false → pos r.rate ≡ answer)
        × ((r.rate ≡ 1 → r.keep ≡ true)
            × ((Dynamic.get_sample_rate counting printers
                  (λ n. 0)
                  dynamic
                  (empty_trace "t")).2.spans
                ≡ map (mark_span r.mark) (empty_trace "t").spans)))
decide-rate_example = decide-rate counting printers (λ n. 0) dynamic (empty_trace "t") zero-below
