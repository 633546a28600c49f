-- ===== src/SentCache/Late.antt =====
-- The answers of `Check` of collect/cache/legacySentCache.go to late spans.
use tracing_proxy.Base.{
  ℕ, zero, suc, ◌+◌, ◌%◌, ◌≡◌, ap, sym, ◌∙◌, String, some, Bool, arith, length,
}
use tracing_proxy.Types.{Span, Trace, uint_mod}
use tracing_proxy.SentCache.{
  Lru, IsLru, LegacySent, LegacySentRecord, store, count_legacy, legacy_record, record_legacy,
  check_legacy,
}

pub count_up : (a : ℕ) → (a % uint_mod + 1) % uint_mod ≡ (a + 1) % uint_mod
count_up a = omega arith

module _ (L : Lru) (lru : IsLru L) where
  open L use {Cache, get}

  -- the cache after `n` late spans
  unfoldable pub late : ℕ → LegacySent Cache → Span → LegacySent Cache
  late zero c sp = c
  late (suc n) c sp = (check_legacy L (late n c sp) sp).0

  module _ (c : LegacySent Cache) (t : Trace) (keep : Bool) (sp : Span)
      (same : t.trace_id ≡ sp.header.trace_id) where
    abbrev sent : LegacySent Cache
    sent = record_legacy L c t keep

    abbrev counted : ℕ → LegacySentRecord
    counted n = record {
      keep = keep;
      rate = t.sample_rate;
      span_count = (length t.spans + n) % uint_mod;
    }

    late-holds :
        (n : ℕ)
        → ((get sp.header.trace_id (late n sent sp).sent_trace_cache).1 ≡ some c.next)
          × ((late n sent sp).records c.next ≡ counted n)
    unfolding late check_legacy record_legacy store count_legacy
    late-holds zero = (
      ap (λ (k : String). (get k sent.sent_trace_cache).1) (sym same)
          ∙ lru.get_add t.trace_id c.next c.sent_trace_cache,
      ground arith,
    )
    late-holds (suc n) =
        let (here, own) = late-holds n in
        rw (here, check_legacy, late)
          (
            lru.get_get sp.header.trace_id sp.header.trace_id (late n sent sp).sent_trace_cache
                ∙ here,
            ground (arith, own, count_up (length t.spans + n)),
          )

    -- If the LRU cache finds what was added last under a key, then after `Record` of a
    -- trace and any number of late spans of it, `Check` of one more answers the decision
    -- and the rate of the trace and a count of its spans and all late ones, modulo 2 ^ 64.
    pub check-late :
        (n : ℕ) → (check_legacy L (late n sent sp) sp).1 ≡ some (legacy_record (counted (suc n)))
    unfolding check_legacy count_legacy
    check-late n =
        let (here, own) = late-holds n in
        rw (here, check_legacy) (ground (arith, own, count_up (length t.spans + n)))
