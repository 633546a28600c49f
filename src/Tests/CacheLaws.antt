-- ===== src/Tests/CacheLaws.antt =====
-- The theorems on types/event.go and collect/cache/cache.go at concrete inputs.
use tracing_proxy.Base.{
  String, filter, not, zero, suc, replicate, ◌≡◌, refl, none, some, ite, text_discrete,
}
use tracing_proxy.Base.Dict.{lookup, insert}
use tracing_proxy.Cache.{
  Heap, Ring, ring_size, expunge, kicked_out, slot, new_in_mem_cache, set_trace, get, looped,
  get_all, is_expired, take_expired_traces,
}
use tracing_proxy.Cache.Leave.{take_expired_traces-Leaves, unless}
use tracing_proxy.Cache.Valid.{IsValid, new_in_mem_cache-IsValid}
use tracing_proxy.Cache.Insert.{set_trace-IsValid}
use tracing_proxy.Cache.Replace.{get-set_trace, without}
use tracing_proxy.Tests.{empty_trace}

-- Traces "a", "b" and "c" at the pointers 0, 1 and 2, with the deadlines 5, 6 and 5.
abbrev heap : Heap
heap zero = empty_trace "a"
heap (suc zero) = record (empty_trace "b") { send_by = 6 }
heap _ = empty_trace "c"

abbrev one_place : Ring
one_place = (set_trace heap (new_in_mem_cache 1) 0).0

new_one : IsValid heap (new_in_mem_cache 1)
new_one = new_in_mem_cache-IsValid heap 1

one_place-IsValid : IsValid heap one_place
unfolding new_in_mem_cache lookup
one_place-IsValid = set_trace-IsValid heap (new_in_mem_cache 1) 0 new_one refl

b_is_new : lookup (heap 1).trace_id one_place.cache ≡ none
unfolding set_trace new_in_mem_cache ring_size replicate looped expunge lookup insert text_discrete
b_is_new = refl

get-set_trace_example :
    get (set_trace heap one_place 1).0 "a"
    ≡ ite
        (text_discrete "b" "a")
        (some 1)
        (without heap (slot one_place.insertion_order (looped one_place)) "a" (get one_place "a"))
get-set_trace_example = get-set_trace heap one_place 1 one_place-IsValid b_is_new "a"

-- The trace "b" takes the place of "a", which is kicked out.
kicked : (set_trace heap one_place 1).1 ≡ some 0
unfolding set_trace new_in_mem_cache ring_size replicate looped kicked_out
kicked = refl

-- the traces "a" and "b" in a ring of three places
abbrev two_of_three : Ring
two_of_three = (set_trace heap (set_trace heap (new_in_mem_cache 3) 0).0 1).0

one_of_three-IsValid : IsValid heap (set_trace heap (new_in_mem_cache 3) 0).0
unfolding new_in_mem_cache lookup
one_of_three-IsValid =
    set_trace-IsValid heap (new_in_mem_cache 3) 0 (new_in_mem_cache-IsValid heap 3) refl

two_of_three-IsValid : IsValid heap two_of_three
unfolding set_trace new_in_mem_cache ring_size replicate looped expunge lookup insert text_discrete
two_of_three-IsValid =
    set_trace-IsValid heap (set_trace heap (new_in_mem_cache 3) 0).0 1 one_of_three-IsValid refl

take_expired_traces-Leaves_example :
    let (d', taken) = take_expired_traces heap 5 two_of_three in
    (taken ≡ filter (is_expired heap 5) (get_all two_of_three))
    × (get_all d' ≡ filter (λ r. not (is_expired heap 5 r)) (get_all two_of_three))
    × ((k : String) → get d' k ≡ unless (is_expired heap 5) (get two_of_three k))
take_expired_traces-Leaves_example =
    take_expired_traces-Leaves heap two_of_three two_of_three-IsValid 5
