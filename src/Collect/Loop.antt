-- ===== src/Collect/Loop.antt =====
-- The operations of collect/collect.go that `collect` calls between spans: expiry, reload, the two
-- strategies against memory overrun, and `Stop`. Go's `sort.Slice` is a parameter.
use tracing_proxy.Base.{
  ℕ, ◌+◌, ◌*◌, ◌-◌, ◌/◌, String, List, [], ◌∷◌, none, some, Bool, true, false, ◌||◌, length, leb,
  ltb, ◌==◌, take, drop, if◌then◌else◌, same_text,
}
use tracing_proxy.Base.Dict.{insert}
use tracing_proxy.Cache.{
  Heap, Ring, set_trace, set_each, get_all, new_in_mem_cache, take_expired_traces, remove_traces,
}
use tracing_proxy.Types.{Trace, cache_impact}
use tracing_proxy.Collect.State.{Config, SamplerFactory, TraceSentCache, write}
use tracing_proxy.Collect.Send.{Reason, got_root, expired, ejected_full, ejected_memsize, send}
use tracing_proxy.Collect.Process.{State, or_default, second}

-- `sort.Slice` of pointers, by a test on two of them
abbrev pub Sort : Type 0
Sort = (ℕ → ℕ → Bool) → List ℕ → List ℕ

-- the reason given by `sendTracesInCache`
unfoldable pub expiry_reason : Trace → Reason
expiry_reason t = elim t.root_span [ some _ ↦ got_root | none ↦ expired ]

-- `GetCacheSize`
abbrev pub cache_size : Ring → ℕ
cache_size d = length d.insertion_order

-- what the comparisons of `sort.Slice` leave in the traces: their impacts, computed once. With
-- fewer than two traces nothing is compared.
unfoldable pub memoize : ℕ → ℕ → Heap → List ℕ → Heap
unfolding write
memoize timeout now h [] = h
memoize timeout now h (r ∷ rs) =
    memoize timeout now (write h r (cache_impact timeout now (h r)).0) rs

unfoldable pub compared : ℕ → ℕ → Heap → List ℕ → Heap
unfolding memoize
compared timeout now h rs = if ltb (length rs) 2 then h else memoize timeout now h rs

-- `int(float64(n) * 0.9)`, which is exact for every length of a slice
abbrev pub nine_tenths : ℕ → ℕ
nine_tenths n = 9 * n / 10

module _ (F : SamplerFactory) (T : TraceSentCache) (sort : Sort) (cfg : Config) where
  open F use {Sampler}
  open T use {Sent, resize}

  -- a loop of `send`, with a reason that may look at the trace
  unfoldable pub send_each : (Trace → Reason) → State F T → List ℕ → State F T
  send_each reason c [] = c
  send_each reason c (r ∷ rs) = send_each reason (send F T cfg c r (reason (c.heap r))) rs

  unfoldable pub send_traces_in_cache : ℕ → State F T → State F T
  unfolding send_each expiry_reason
  send_traces_in_cache now c =
      let swept = take_expired_traces c.heap now c.ring in
      send_each expiry_reason (record c { ring = swept.0 }) swept.1

  -- the loop of `reloadConfigs` over the old cache, at its index `j`
  unfoldable pub refill : ℕ → State F T → Ring → List ℕ → State F T × Ring
  refill j c d [] = (c, d)
  refill j c d (r ∷ rs) = elim (leb cfg.cache_capacity j) [
    | true ↦ refill (j + 1) (send F T cfg c r ejected_full) d rs
    | false ↦ refill (j + 1) c (set_trace c.heap d r).0 rs
  ]

  unfoldable pub resized : State F T → State F T
  unfolding refill
  resized c =
      let moved = refill 0 c (new_in_mem_cache cfg.cache_capacity) (get_all c.ring) in
      if cfg.cache_capacity == cache_size c.ring then c else record (moved.0) { ring = moved.1 }

  unfoldable pub resize_sent : Sent → Sent
  resize_sent s = elim (resize s cfg.sample_cache) [ some s' ↦ s' | none ↦ s ]

  unfoldable pub reload_configs : State F T → State F T
  unfolding resized resize_sent
  reload_configs c =
      let c' = resized c in
      record c' { sample_trace_cache = resize_sent c'.sample_trace_cache; dataset_samplers = [] }

  -- `inMemConfig.MaxAlloc == 0 || mem.Alloc < inMemConfig.MaxAlloc`
  unfoldable pub within_limit : ℕ → Bool
  within_limit alloc = cfg.max_alloc == 0 || ltb alloc cfg.max_alloc

  -- the shrunk cache, once the limit is found to be exceeded
  unfoldable pub shrink : State F T → State F T
  unfolding send_each set_each
  shrink c =
      let old = sort (λ a b. ltb (c.heap a).send_by (c.heap b).send_by) (get_all c.ring) in
      let new_cap = nine_tenths (length (get_all c.ring)) in
      let c' = send_each (λ _. ejected_memsize) c (take (length old - new_cap) old) in
      record c' {
        ring = set_each c'.heap (new_in_mem_cache new_cap) (drop (length old - new_cap) old);
      }

  unfoldable pub old_check_alloc : ℕ → State F T → State F T
  unfolding within_limit shrink
  old_check_alloc alloc c =
      if within_limit alloc || ltb (cache_size c.ring) 100 then c else shrink c

  -- the loop of `newCheckAlloc`: the state, and the IDs of the traces sent
  unfoldable pub eject :
      ℕ → ℕ → State F T → List (String × Unit {0}) → List ℕ → State F T × List (String × Unit {0})
  unfolding insert
  eject to_remove size c ids [] = (c, ids)
  eject to_remove size c ids (r ∷ rs) =
      let ids' = insert (c.heap r).trace_id tt ids in
      let size' = size + (c.heap r).data_size in
      let c' = send F T cfg c r ejected_memsize in
      elim (ltb to_remove size') [ true ↦ (c', ids') | false ↦ eject to_remove size' c' ids' rs ]

  unfoldable pub eject_heaviest : ℕ → ℕ → State F T → State F T
  unfolding compared eject
  eject_heaviest now alloc c =
      let timeout = or_default cfg.trace_timeout (60 * second) in
      let heap = compared timeout now c.heap (get_all c.ring) in
      let heavier = λ (a b : ℕ).
        ltb (cache_impact timeout now (heap b)).1 (cache_impact timeout now (heap a)).1 in
      let order = sort heavier (get_all c.ring) in
      let (c', ids) = eject (alloc - cfg.max_alloc) 0 (record c { heap = heap }) [] order in
      record c' { ring = remove_traces c'.heap ids c'.ring }

  unfoldable pub new_check_alloc : ℕ → ℕ → State F T → State F T
  unfolding within_limit eject_heaviest
  new_check_alloc now alloc c = if within_limit alloc then c else eject_heaviest now alloc c

  -- the branch of `collect` at a tick
  unfoldable pub tick : ℕ → ℕ → State F T → State F T
  unfolding same_text
  tick now alloc c =
      let c' = send_traces_in_cache now c in
      if same_text cfg.cache_overrun_strategy "impact"
      then new_check_alloc now alloc c'
      else old_check_alloc alloc c'

  -- `Stop`, once it holds the lock
  unfoldable pub stop : State F T → State F T
  unfolding send_each
  stop c = send_each (λ _. ejected_full) c (get_all c.ring)
