-- ===== src/SentCache/Remembers.antt =====
-- Laws of the pair of filters in collect/cache/cuckoo.go.
use tracing_proxy.Base.{
  ◌≡◌, String, none, some, true, arith, ltb, inl, inr, Bool-cases, Option-cases,
}
use tracing_proxy.SentCache.Checker.{
  CuckooFilter, CuckooTraceChecker, half, full, add, check, maintain, start_future, cycle,
}

-- What the package documents of `Insert` and `Lookup`: what was inserted is found, if the
-- filter had room for it.
pub record IsFilter (C : CuckooFilter) : Type 0 where
  pub found :
      (k : String) (f : C.Filter) → (C.insert k f).1 ≡ true → C.lookup k (C.insert k f).0 ≡ true

module _ (C : CuckooFilter) where
  open C use {Filter, new_filter, insert, lookup, load_factor}

  full_above_half : (f : Filter) → ltb full (load_factor f) ≡ true → ltb half (load_factor f) ≡ true
  full_above_half f h = ground arith

  -- If there is no future filter and the load of the current one is above 0.99, `Maintain`
  -- answers two empty filters.
  pub maintain-forgets :
      (c : CuckooTraceChecker Filter)
      → c.future ≡ none
      → ltb full (load_factor c.current) ≡ true
      → maintain C c
        ≡ some (record c { current = new_filter c.capacity; future = some (new_filter c.capacity) })
  unfolding maintain start_future cycle
  maintain-forgets c n e = ground (arith, n, e, full_above_half c.current e)

  -- `Maintain` never makes a nil filter the current one, whatever the two load factors are.
  pub maintain-some :
      (c : CuckooTraceChecker Filter) → (c' : CuckooTraceChecker Filter) × (maintain C c ≡ some c')
  unfolding maintain start_future cycle
  maintain-some c = elim (Bool-cases (ltb full (load_factor c.current))) [
    | inr e ↦ (start_future C c, ground (arith, e))
    | inl e ↦ elim (Option-cases c.future) [
      | inl n ↦ (
        record c { current = new_filter c.capacity; future = some (new_filter c.capacity) },
        maintain-forgets c n e,
      )
      | inr (f, s) ↦
          (record c { current = f; future = some (new_filter c.capacity) }, ground (arith, e, s))
    ]
  ]

  -- If a filter with room finds what was inserted: when there is a future filter and both
  -- have room, an ID that was added is still found after `Maintain`, whether it cycles the
  -- filters or not.
  pub check-maintain_add :
      IsFilter C
      → (c : CuckooTraceChecker Filter) (k : String) (f : Filter) → c.future ≡ some f
      → (insert k c.current).1 ≡ true
      → (insert k f).1 ≡ true
      → (c' : CuckooTraceChecker Filter) × (maintain C (add C c k) ≡ some c')
        × (check C c' k ≡ true)
  unfolding maintain start_future cycle add check
  check-maintain_add filter c k f s room room' =
      elim (Bool-cases (ltb full (load_factor (insert k c.current).0))) [
        | inr e ↦ (add C c k, ground (arith, e, s), filter.found k c.current room)
        | inl e ↦ (
          record c { current = (insert k f).0; future = some (new_filter c.capacity) },
          ground (arith, e, s),
          filter.found k f room',
        )
      ]
