-- ===== src/SentCache/Cuckoo.antt =====
-- collect/cache/cuckooSentCache.go: kept traces in an LRU cache of records, dropped ones in the
-- filters. The goroutine that calls `Maintain` and its ticker are not modelled.
use tracing_proxy.Base.{
  ℕ, ◌+◌, ◌-◌, ◌%◌, String, List, [], ◌∷◌, Option, none, some, Bool, true, drop, length, ltb,
  if◌then◌else◌,
}
use tracing_proxy.Types.{Span, Trace, descendant_count, uint_mod}
use tracing_proxy.Collect.State.{SentRecord, SampleCacheConfig, TraceSentCache}
use tracing_proxy.SentCache.{Lru, store}
use tracing_proxy.SentCache.Checker.{CuckooFilter, CuckooTraceChecker}
use tracing_proxy.SentCache.Checker

pub record CuckooKeptRecord : Type 0 where
  pub rate : ℕ
  pub span_count : ℕ

unfoldable pub count_kept : CuckooKeptRecord → CuckooKeptRecord
count_kept r = record r { span_count = (r.span_count + 1) % uint_mod }

unfoldable pub kept_record : CuckooKeptRecord → SentRecord
kept_record r = record { kept = true; rate = r.rate; descendant_count = r.span_count }

pub record CuckooSent (Cache Filter : Type 0) : Type 0 where
  pub kept : Cache
  pub records : ℕ → CuckooKeptRecord
  pub next : ℕ
  pub dropped : CuckooTraceChecker Filter

module _ (L : Lru) (C : CuckooFilter) where
  open L use {Cache, add, get, keys, new}
  open C use {Filter}

  unfoldable pub new_cuckoo_sent_cache :
      (ℕ → CuckooKeptRecord) → SampleCacheConfig → Option (CuckooSent Cache Filter)
  unfolding Checker.new_cuckoo_trace_checker
  new_cuckoo_sent_cache records cfg = elim (new cfg.kept_size) [
    | none ↦ none
    | some stc ↦ some (record {
      kept = stc;
      records = records;
      next = 0;
      dropped = Checker.new_cuckoo_trace_checker C cfg.dropped_size;
    })
  ]

  unfoldable pub record_kept : CuckooSent Cache Filter → Trace → CuckooSent Cache Filter
  unfolding store descendant_count
  record_kept c t = record c {
    kept = add t.trace_id c.next c.kept;
    records =
        store c.records c.next (record { rate = t.sample_rate; span_count = descendant_count t });
    next = c.next + 1;
  }

  unfoldable pub record_cuckoo : CuckooSent Cache Filter → Trace → Bool → CuckooSent Cache Filter
  unfolding record_kept Checker.add
  record_cuckoo c t keep =
      if keep then record_kept c t else record c { dropped = Checker.add C c.dropped t.trace_id }

  -- the search among the kept traces
  unfoldable pub check_kept :
      CuckooSent Cache Filter → Span → CuckooSent Cache Filter × Option SentRecord
  unfolding store count_kept kept_record
  check_kept c sp =
      let found = get sp.header.trace_id c.kept in
      let c' = record c { kept = found.0 } in
      elim found.1 [
        | none ↦ (c', none)
        | some p ↦
            let sr = count_kept (c.records p) in
            (record c' { records = store c.records p sr }, some (kept_record sr))
      ]

  -- `Check`. A dropped trace is answered with a record and false, which its one caller takes as
  -- not found.
  unfoldable pub check_cuckoo :
      CuckooSent Cache Filter → Span → CuckooSent Cache Filter × Option SentRecord
  unfolding check_kept Checker.check
  check_cuckoo c sp =
      if Checker.check C c.dropped sp.header.trace_id then (c, none) else check_kept c sp

  -- the loop that copies the keys: the old cache, which `Get` reorders, and the new one
  unfoldable pub copy_keys : Cache → Cache → List String → Cache
  copy_keys old stc [] = stc
  copy_keys old stc (k ∷ ks) =
      let found = get k old in
      elim found.1 [ none ↦ copy_keys found.0 stc ks | some p ↦ copy_keys found.0 (add k p stc) ks ]

  unfoldable pub last_keys : ℕ → List String → List String
  last_keys kept_size ks = if ltb kept_size (length ks) then drop (length ks - kept_size) ks else ks

  unfoldable pub resize_cuckoo :
      CuckooSent Cache Filter → SampleCacheConfig → Option (CuckooSent Cache Filter)
  unfolding copy_keys last_keys Checker.set_next_capacity
  resize_cuckoo c cfg = elim (new cfg.kept_size) [
    | none ↦ none
    | some stc ↦ some (record c {
      kept = copy_keys c.kept stc (last_keys cfg.kept_size (keys c.kept));
      dropped = Checker.set_next_capacity C c.dropped cfg.dropped_size;
    })
  ]

  -- the interface of traceSentCache.go
  abbrev pub cuckoo_sent_cache : TraceSentCache
  cuckoo_sent_cache = record {
    Sent = CuckooSent Cache Filter;
    record_decision = record_cuckoo;
    check = check_cuckoo;
    resize = resize_cuckoo;
  }
