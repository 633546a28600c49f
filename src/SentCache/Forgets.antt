-- ===== src/SentCache/Forgets.antt =====
-- `Check` of collect/cache/cuckooSentCache.go after `Record`, as `processSpan` reads it.
use tracing_proxy.Base.{
  ℕ, ◌+◌, ◌%◌, ◌≡◌, refl, ap, sym, ◌∙◌, none, some, true, false, arith, length,
}
use tracing_proxy.Types.{Span, Trace, descendant_count, uint_mod}
use tracing_proxy.Cache.{get}
use tracing_proxy.Collect.State.{Config, SamplerFactory, Collector}
use tracing_proxy.Collect.Process.{process_span, grow, new_trace}
use tracing_proxy.Collect.Invariant.{IsLive}
use tracing_proxy.Collect.Fate.{process_span-starts}
use tracing_proxy.SentCache.{Lru, IsLru, store}
use tracing_proxy.SentCache.Checker.{CuckooFilter}
use tracing_proxy.SentCache.Checker
use tracing_proxy.SentCache.Remembers.{IsFilter}
use tracing_proxy.SentCache.Late.{count_up}
use tracing_proxy.SentCache.Cuckoo.{
  CuckooSent, count_kept, kept_record, record_cuckoo, record_kept, check_kept, check_cuckoo,
  cuckoo_sent_cache,
}

module _ (L : Lru) (C : CuckooFilter) where
  open L use {Cache}
  open C use {Filter, insert, lookup}

  module _ (c : CuckooSent Cache Filter) (t : Trace) (sp : Span)
      (same : t.trace_id ≡ sp.header.trace_id) where
    -- If the LRU cache finds what was added last and the filter of dropped traces does not
    -- have the ID, `Check` after `Record` of a kept trace finds it, with its rate and a
    -- count that includes the late span.
    pub check-record_kept :
        IsLru L
        → lookup t.trace_id c.dropped.current ≡ false
        → (check_cuckoo L C (record_cuckoo L C c t true) sp).1
          ≡ some (record {
            kept = true;
            rate = t.sample_rate;
            descendant_count = (length t.spans + 1) % uint_mod;
          })
    unfolding check_cuckoo record_cuckoo check_kept record_kept store count_kept kept_record
        Checker.check descendant_count
    check-record_kept lru clean =
        rw (sym same, clean, check_cuckoo, lru.get_add t.trace_id c.next c.kept, check_kept)
          (ground (arith, count_up (length t.spans)))

    -- If a filter with room finds what was inserted, and the current filter has room,
    -- `Check` after `Record` of a dropped trace answers that the trace is not found.
    pub check-record_dropped :
        IsFilter C
        → (insert t.trace_id c.dropped.current).1 ≡ true
        → (check_cuckoo L C (record_cuckoo L C c t false) sp).1 ≡ none
    unfolding check_cuckoo record_cuckoo Checker.check Checker.add
    check-record_dropped filter room =
        rw (sym same, filter.found t.trace_id c.dropped.current room, check_cuckoo) refl

    -- If a filter with room finds what was inserted: from a collector that satisfies
    -- `IsLive` and whose record of sent traces is a `cuckooSentCache` that just recorded a
    -- trace as dropped, a late span of that trace starts a new trace, which `Get` then
    -- finds.
    pub process_span-restarts :
        IsFilter C
        → (insert t.trace_id c.dropped.current).1 ≡ true
        → (F : SamplerFactory) (cfg : Config) (now : ℕ)
          (i : Collector (SamplerFactory.Sampler F) (CuckooSent Cache Filter))
        → IsLive i
        → i.sample_trace_cache ≡ record_cuckoo L C c t false
        → get i.ring sp.header.trace_id ≡ none
        → let i' = process_span F (cuckoo_sent_cache L C) cfg now i sp in
          (get i'.ring sp.header.trace_id ≡ some i.next)
          × (i'.heap i.next ≡ grow cfg now sp (new_trace cfg now sp))
    process_span-restarts filter room F cfg now i v after new =
        process_span-starts F (cuckoo_sent_cache L C) cfg now i sp v new (
          ap (λ (s : CuckooSent Cache Filter). (check_cuckoo L C s sp).1) after
          ∙ check-record_dropped filter room)
