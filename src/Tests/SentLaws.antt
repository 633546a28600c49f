-- ===== src/Tests/SentLaws.antt =====
-- The theorems on the records of sent traces at concrete inputs: an LRU cache as a list, and a
-- filter that remembers its texts.
use tracing_proxy.Base.{
  ℕ, zero, suc, ◌+◌, ◌*◌, ◌≡◌, refl, String, List, [], ◌∷◌, Option, none, some, Bool, true, false,
  arith, length, leb, ltb, take, if◌then◌else◌, ite, text_discrete, ◌++◌,
}
use tracing_proxy.Base.Dict.{lookup, delete, lookup-delete}
use tracing_proxy.Types.{Trace}
use tracing_proxy.Cache.{get, new_in_mem_cache}
use tracing_proxy.Collect.Invariant.{IsLive}
use tracing_proxy.Collect.History.{start, run, run-start-IsLive}
use tracing_proxy.SentCache.{legacy_record}
use tracing_proxy.Collect.State.{Collector}
use tracing_proxy.Collect.Process.{process_span, grow, new_trace}
use tracing_proxy.SentCache.{Lru, IsLru, LegacySent, record_legacy, check_legacy}
use tracing_proxy.SentCache.Late.{late, check-late}
use tracing_proxy.SentCache.Checker.{CuckooFilter, CuckooTraceChecker, half, full}
use tracing_proxy.SentCache.Cuckoo.{CuckooSent, record_cuckoo, cuckoo_sent_cache}
use tracing_proxy.SentCache.Remembers.{IsFilter}
use tracing_proxy.SentCache.Forgets.{process_span-restarts}
use tracing_proxy.Tests.{
  empty_trace, child_span, long_traces, insertion_sort, insertion_sort-Sorts, dry_config,
}

-- A size less one, and the entries from the newest to the oldest.
abbrev ListCache : Type 0
ListCache = ℕ × List (String × ℕ)

abbrev front : String → ListCache → Option ℕ → ListCache × Option ℕ
front k c none = (c, none)
front k (n, m) (some p) = ((n, (k, p) ∷ delete k m), some p)

abbrev oldest_first : List (String × ℕ) → List String
oldest_first [] = []
oldest_first ((k, _) ∷ m) = oldest_first m ++ k ∷ []

abbrev list_cache : Lru
list_cache = record {
  Cache = ListCache;
  new = λ n. elim n [ zero ↦ none | suc n' ↦ some (n', []) ];
  add = λ k p c. (c.0, (k, p) ∷ take c.0 (delete k c.1));
  get = λ k c. front k c (lookup k c.1);
  keys = λ c. oldest_first c.1;
}

list_cache-IsLru : IsLru list_cache
unfolding lookup
list_cache-IsLru = record {
  get_add = λ k p c. ground arith;
  get_get = λ k j c. ground (arith, lookup-delete j k c.1);
}

abbrev is_member : String → List String → Bool
is_member k [] = false
is_member k (j ∷ js) = ite (text_discrete j k) true (is_member k js)

-- A capacity, and the texts inserted.
abbrev TextFilter : Type 0
TextFilter = ℕ × List String

abbrev text_filter : CuckooFilter
text_filter = record {
  Filter = TextFilter;
  new_filter = λ n. (n, []);
  insert = λ k f. if ltb (length f.1) f.0 then ((f.0, k ∷ f.1), true) else (f, false);
  lookup = λ k f. is_member k f.1;
  load_factor = λ f.
      if leb f.0 (length f.1) then full + 1 else if ltb f.0 (2 * length f.1) then half + 1 else 0;
}

text_filter-IsFilter : IsFilter text_filter
text_filter-IsFilter = record { found = λ k f room. ground arith }

abbrev sent_trace : Trace
sent_trace = record (empty_trace "a") { spans = child_span "a" ∷ []; sample_rate = 4 }

abbrev empty_legacy : LegacySent ListCache
empty_legacy = record {
  sent_trace_cache = (1, []);
  records = λ _. record { keep = false; rate = 0; span_count = 0 };
  next = 0;
}

check-late_example :
    (check_legacy list_cache
      (late list_cache list_cache-IsLru 2
        (record_legacy list_cache empty_legacy sent_trace true)
        (child_span "a"))
      (child_span "a")).1
    ≡ some (record { kept = true; rate = 4; descendant_count = 4 })
unfolding legacy_record
check-late_example =
    check-late list_cache list_cache-IsLru empty_legacy sent_trace true (child_span "a") refl 2

-- A filter with room for two texts that holds one.
abbrev half_filled : CuckooTraceChecker TextFilter
half_filled = record { current = (2, "b" ∷ []); future = some (2, []); capacity = 2 }

abbrev empty_cuckoo : CuckooSent ListCache TextFilter
empty_cuckoo = record {
  kept = (1, []);
  records = λ _. record { rate = 0; span_count = 0 };
  next = 0;
  dropped = half_filled;
}

abbrev after_drop : Collector ℕ (CuckooSent ListCache TextFilter)
after_drop =
    start long_traces (cuckoo_sent_cache list_cache text_filter) insertion_sort 3 "host"
      (λ _. empty_trace "") (record_cuckoo list_cache text_filter empty_cuckoo sent_trace false)

after_drop-IsLive : IsLive after_drop
unfolding run
after_drop-IsLive =
    run-start-IsLive long_traces (cuckoo_sent_cache list_cache text_filter) insertion_sort
      insertion_sort-Sorts [] 3 "host" (λ _. empty_trace "")
      (record_cuckoo list_cache text_filter empty_cuckoo sent_trace false)

process_span-restarts_example :
    let i' =
      process_span long_traces
        (cuckoo_sent_cache list_cache text_filter)
        dry_config
        9
        after_drop
        (child_span "a") in
    (get i'.ring "a" ≡ some 0)
    × (i'.heap 0 ≡ grow dry_config 9 (child_span "a") (new_trace dry_config 9 (child_span "a")))
unfolding start new_in_mem_cache get lookup
process_span-restarts_example =
    process_span-restarts list_cache text_filter empty_cuckoo sent_trace (child_span "a") refl
      text_filter-IsFilter refl long_traces dry_config 9 after_drop after_drop-IsLive refl refl
