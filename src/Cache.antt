-- ===== src/Cache.antt =====
-- collect/cache/cache.go: the ring of live traces. The cache and the ring hold pointers to the
-- same traces: a pointer is a number, and the traces stand on a heap. A missing entry is nil.
pub mod Sweep
pub mod Valid
pub mod Insert
pub mod Replace
pub mod Leave
pub mod Held
pub mod Present
pub mod Fill
use tracing_proxy.Base.{
  ℕ, ◌+◌, String, List, [], ◌∷◌, Option, none, some, Bool, true, false, length, get_or, set,
  replicate, leb, ltb, ◌==◌, if◌then◌else◌,
}
use tracing_proxy.Base.Dict.{lookup, insert, delete}
use tracing_proxy.Types.{Trace}

abbrev pub Heap : Type 0
Heap = ℕ → Trace

pub record Ring : Type 0 where
  pub cache : List (String × ℕ)
  pub insertion_order : List (Option ℕ)
  pub insert_point : ℕ

abbrev pub default_capacity : ℕ
default_capacity = 10000

-- `if capacity == 0 { capacity = DefaultInMemCacheCapacity }`
unfoldable pub ring_size : ℕ → ℕ
ring_size capacity = if capacity == 0 then default_capacity else capacity

unfoldable pub new_in_mem_cache : ℕ → Ring
new_in_mem_cache capacity = record {
  cache = [];
  insertion_order = replicate (ring_size capacity) none;
  insert_point = 0;
}

-- the pointer in a place of the ring
abbrev pub slot : List (Option ℕ) → ℕ → Option ℕ
slot io i = get_or io i none

-- `if d.insertPoint >= len(d.insertionOrder) { d.insertPoint = 0 }`
unfoldable pub looped : Ring → ℕ
looped d = if leb (length d.insertion_order) d.insert_point then 0 else d.insert_point

-- expunging the trace in the current spot
unfoldable pub expunge : Heap → Option ℕ → List (String × ℕ) → List (String × ℕ)
expunge h none cache = cache
expunge h (some old) cache = delete (h old).trace_id cache

unfoldable pub kicked_out : Heap → Option ℕ → Option ℕ
kicked_out h none = none
kicked_out h (some old) = if (h old).sent then none else some old

-- `Set` of a trace that is not nil: the new ring, and the unsent trace that it kicked out
unfoldable pub set_trace : Heap → Ring → ℕ → Ring × Option ℕ
unfolding looped expunge kicked_out insert
set_trace h d r =
    let p = looped d in
    let old = slot d.insertion_order p in
    (
      record {
        cache = expunge h old (insert (h r).trace_id r d.cache);
        insertion_order = set d.insertion_order p (some r);
        insert_point = p + 1;
      },
      kicked_out h old,
    )

unfoldable pub get : Ring → String → Option ℕ
get d trace_id = lookup trace_id d.cache

-- the loop of `GetAll`
unfoldable pub present : List (Option ℕ) → List ℕ
present [] = []
present (none ∷ io) = present io
present (some r ∷ io) = r ∷ present io

unfoldable pub get_all : Ring → List ℕ
unfolding present
get_all d = present d.insertion_order

pub record Swept : Type 0 where
  pub taken : List ℕ
  pub order : List (Option ℕ)
  pub kept : List (String × ℕ)

-- the loop of `TakeExpiredTraces` and of `RemoveTraces`: what the test takes leaves the ring and
-- the cache
unfoldable pub sweep : Heap → (ℕ → Bool) → List (Option ℕ) → List (String × ℕ) → Swept
sweep h test [] cache = record { taken = []; order = []; kept = cache }
sweep h test (none ∷ io) cache =
    let rest = sweep h test io cache in record rest { order = none ∷ rest.order }
sweep h test (some r ∷ io) cache = elim (test r) [
  | true ↦
      let rest = sweep h test io (delete (h r).trace_id cache) in
      record rest { taken = r ∷ rest.taken; order = none ∷ rest.order }
  | false ↦ let rest = sweep h test io cache in record rest { order = some r ∷ rest.order }
]

-- `now.After(t.SendBy)`
abbrev pub is_expired : Heap → ℕ → ℕ → Bool
is_expired h now r = ltb (h r).send_by now

unfoldable pub take_expired_traces : Heap → ℕ → Ring → Ring × List ℕ
take_expired_traces h now d =
    let s = sweep h (is_expired h now) d.insertion_order d.cache in
    (record d { cache = s.kept; insertion_order = s.order }, s.taken)

-- the keys of a Go set
abbrev pub is_key : List (String × Unit {0}) → String → Bool
is_key to_delete k = elim (lookup k to_delete) [ some _ ↦ true | none ↦ false ]

unfoldable pub remove_traces : Heap → List (String × Unit {0}) → Ring → Ring
remove_traces h to_delete d =
    let s = sweep h (λ r. is_key to_delete (h r).trace_id) d.insertion_order d.cache in
    record d { cache = s.kept; insertion_order = s.order }

-- a loop of `Set`, whose answers are dropped
unfoldable pub set_each : Heap → Ring → List ℕ → Ring
set_each h d [] = d
set_each h d (r ∷ rs) = set_each h (set_trace h d r).0 rs
