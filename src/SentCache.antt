-- ===== src/SentCache.antt =====
-- The records of sent traces in collect/cache: the interface of traceSentCache.go, filled by
-- legacySentCache.go here and by cuckooSentCache.go in Cuckoo; cuckoo.go is Checker. The LRU cache
-- (github.com/hashicorp/golang-lru) is a parameter. It holds pointers to records, numbers.
pub mod Checker
pub mod Cuckoo
pub mod Forgets
pub mod Late
pub mod Remembers
use tracing_proxy.Base.{
  ℕ, suc, ◌+◌, ◌%◌, ◌≡◌, String, List, Option, none, some, Bool, ◌==◌, if◌then◌else◌,
}
use tracing_proxy.Types.{Span, Trace, descendant_count, uint_mod}
use tracing_proxy.Collect.State.{SentRecord, TraceSentCache}

pub record Lru : Type 1 where
  pub Cache : Type 0
  -- `none` is the error for a size that is not positive.
  pub new : ℕ → Option Cache
  pub add : String → ℕ → Cache → Cache
  -- `Get` marks the entry as used.
  pub get : String → Cache → Cache × Option ℕ
  -- from the oldest to the newest
  pub keys : Cache → List String

-- What the package documents of `Get`: it finds what was added last under the key, and a `Get`
-- changes the recency of a key alone.
pub record IsLru (L : Lru) : Type 0 where
  pub get_add : (k : String) (p : ℕ) (c : L.Cache) → (L.get k (L.add k p c)).1 ≡ some p
  pub get_get : (k j : String) (c : L.Cache) → (L.get k (L.get j c).0).1 ≡ (L.get k c).1

-- A store of records behind pointers.
unfoldable pub store {ℓ} : {A : Type ℓ} → (ℕ → A) → ℕ → A → ℕ → A
store records p r q = if q == p then r else records q

pub record LegacySentRecord : Type 0 where
  pub keep : Bool
  pub rate : ℕ
  pub span_count : ℕ

-- `Count`
unfoldable pub count_legacy : LegacySentRecord → LegacySentRecord
count_legacy r = record r { span_count = (r.span_count + 1) % uint_mod }

-- `Kept`, `Rate` and `DescendantCount`
unfoldable pub legacy_record : LegacySentRecord → SentRecord
legacy_record r = record { kept = r.keep; rate = r.rate; descendant_count = r.span_count }

pub record LegacySent (Cache : Type 0) : Type 0 where
  pub sent_trace_cache : Cache
  pub records : ℕ → LegacySentRecord
  pub next : ℕ

module _ (L : Lru) where
  open L use {Cache, add, get, new}

  unfoldable pub new_legacy_sent_cache : (ℕ → LegacySentRecord) → ℕ → Option (LegacySent Cache)
  new_legacy_sent_cache records capacity = elim (new capacity) [
    | none ↦ none
    | some stc ↦ some (record { sent_trace_cache = stc; records = records; next = 0 })
  ]

  unfoldable pub record_legacy : LegacySent Cache → Trace → Bool → LegacySent Cache
  unfolding store descendant_count
  record_legacy c t keep = record {
    sent_trace_cache = add t.trace_id c.next c.sent_trace_cache;
    records =
        store c.records c.next
          (record { keep = keep; rate = t.sample_rate; span_count = descendant_count t });
    next = c.next + 1;
  }

  unfoldable pub check_legacy : LegacySent Cache → Span → LegacySent Cache × Option SentRecord
  unfolding store count_legacy legacy_record
  check_legacy c sp =
      let found = get sp.header.trace_id c.sent_trace_cache in
      let c' = record c { sent_trace_cache = found.0 } in
      elim found.1 [
        | none ↦ (c', none)
        | some p ↦
            let sr = count_legacy (c.records p) in
            (record c' { records = store c.records p sr }, some (legacy_record sr))
      ]

  -- the interface of traceSentCache.go; `Resize` does nothing
  abbrev pub legacy_sent_cache : TraceSentCache
  legacy_sent_cache = record {
    Sent = LegacySent Cache;
    record_decision = record_legacy;
    check = check_legacy;
    resize = λ s cfg. some s;
  }
