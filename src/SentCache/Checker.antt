-- ===== src/SentCache/Checker.antt =====
-- collect/cache/cuckoo.go: `CuckooTraceChecker`, two filters of which the older one answers. The
-- filter (github.com/panmari/cuckoofilter) is a parameter. A load factor is the bit pattern of a
-- `float64`; the patterns of two positive numbers are ordered as the numbers are.
use tracing_proxy.Base.{ℕ, String, Option, none, some, Bool, true, false, ◌&&◌, ltb, if◌then◌else◌}

pub record CuckooFilter : Type 1 where
  pub Filter : Type 0
  pub new_filter : ℕ → Filter
  -- the filter after `Insert`, and whether it had room
  pub insert : String → Filter → Filter × Bool
  pub lookup : String → Filter → Bool
  pub load_factor : Filter → ℕ

-- 0.5
abbrev pub half : ℕ
half = 4602678819172646912

-- 0.99
abbrev pub full : ℕ
full = 4607092346807469998

-- `current` is never nil after `NewCuckooTraceChecker`, but for what `Maintain` stores in it.
pub record CuckooTraceChecker (Filter : Type 0) : Type 0 where
  pub current : Filter
  pub future : Option Filter
  pub capacity : ℕ

abbrev pub is_none {ℓ} : {A : Type ℓ} → Option A → Bool
is_none none = true
is_none (some _) = false

module _ (C : CuckooFilter) where
  open C use {Filter, new_filter, insert, lookup, load_factor}

  unfoldable pub new_cuckoo_trace_checker : ℕ → CuckooTraceChecker Filter
  new_cuckoo_trace_checker capacity = record {
    current = new_filter capacity;
    future = none;
    capacity = capacity;
  }

  abbrev pub insert_future : String → Option Filter → Option Filter
  insert_future trace_id none = none
  insert_future trace_id (some f) = some (insert trace_id f).0

  unfoldable pub add : CuckooTraceChecker Filter → String → CuckooTraceChecker Filter
  add c trace_id = record c {
    current = (insert trace_id c.current).0;
    future = insert_future trace_id c.future;
  }

  unfoldable pub check : CuckooTraceChecker Filter → String → Bool
  check c trace_id = lookup trace_id c.current

  -- the first half of `Maintain`, which starts the future filter
  unfoldable pub start_future : CuckooTraceChecker Filter → CuckooTraceChecker Filter
  start_future c =
      if is_none c.future && ltb half (load_factor c.current)
      then record c { future = some (new_filter c.capacity) }
      else c

  -- `c.current = c.future`: none if that leaves nil
  unfoldable pub cycle : CuckooTraceChecker Filter → Option (CuckooTraceChecker Filter)
  cycle c = elim c.future [
    | none ↦ none
    | some f ↦ some (record c { current = f; future = some (new_filter c.capacity) })
  ]

  unfoldable pub maintain : CuckooTraceChecker Filter → Option (CuckooTraceChecker Filter)
  unfolding start_future cycle
  maintain c =
      if ltb full (load_factor c.current) then cycle (start_future c) else some (start_future c)

  unfoldable pub set_next_capacity : CuckooTraceChecker Filter → ℕ → CuckooTraceChecker Filter
  set_next_capacity c capacity = record c { capacity = capacity }
