-- ===== src/Collect/Invariant.antt =====
-- The invariant of the collector of collect/collect.go, through `send` and a new trace.
use tracing_proxy.Base.{
  ℕ, ◌<◌, ◌≡◌, ◌≢◌, refl, sym, ap, ◌∙◌, Option, none, some, false, arith, String, ℕ_discrete, ite,
}
use tracing_proxy.Base.Dict.{lookup}
use tracing_proxy.Cache.{Heap, Ring, slot, set_trace, kicked_out, looped}
use tracing_proxy.Cache.Valid
use tracing_proxy.Cache.Insert.{slot-set_trace, set_trace-IsValid}
use tracing_proxy.Types.{Span, Trace, add_span}
use tracing_proxy.Collect.State.{Config, SamplerFactory, TraceSentCache, Collector, write}
use tracing_proxy.Collect.Send.{Reason, send}
use tracing_proxy.Collect.Sent.{send-ring, send-next, send-heap_other, send-trace_id}
use tracing_proxy.Collect.Process.{placed, admit, grow, send_ejected, new_trace, increment}

-- The ring is consistent, its traces are allocated, and none of them has been sent.
pub record IsLive {Sampler Sent : Type 0} (c : Collector Sampler Sent) : Type 0 where
  pub valid : Valid.IsValid c.heap c.ring
  pub unsent : (i r : ℕ) → slot c.ring.insertion_order i ≡ some r → (c.heap r).sent ≡ false
  pub allocated : (i r : ℕ) → slot c.ring.insertion_order i ≡ some r → r < c.next

-- The ring looks only at the IDs of its traces.
pub IsValid-heap :
    (h h' : Heap) (d : Ring)
    → ((i r : ℕ) → slot d.insertion_order i ≡ some r → (h' r).trace_id ≡ (h r).trace_id)
    → Valid.IsValid h d
    → Valid.IsValid h' d
IsValid-heap h h' d same v = record {
  room = v.room;
  point = v.point;
  stored = λ i r e. rw (same i r e) (v.stored i r e);
  held = λ k r e. let (i, here, own) = v.held k r e in (i, here, same i r here ∙ own);
  distinct = v.distinct;
}

-- What the ring's traces are to the invariant: their IDs, and that they have not been sent.
pub IsLive-same :
    {Sampler Sent : Type 0} (c c' : Collector Sampler Sent)
    → c'.ring ≡ c.ring
    → c'.next ≡ c.next
    → ((i r : ℕ)
        → slot c.ring.insertion_order i ≡ some r
        → ((c'.heap r).trace_id ≡ (c.heap r).trace_id) × ((c'.heap r).sent ≡ (c.heap r).sent))
    → IsLive c
    → IsLive c'
IsLive-same c c' ring next same v = record {
  valid = rw ring (IsValid-heap c.heap c'.heap c.ring (λ i r e. (same i r e).0) v.valid);
  unsent = λ i r e.
      let e' : slot c.ring.insertion_order i ≡ some r = rw ring at e in
      (same i r e').1 ∙ v.unsent i r e';
  allocated = λ i r e.
      let e' : slot c.ring.insertion_order i ≡ some r = rw ring at e in
      rw next (v.allocated i r e');
}

kicked_out-some :
    (h : Heap) (old : Option ℕ) (o : ℕ)
    → kicked_out h old ≡ some o
    → (old ≡ some o) × ((h o).sent ≡ false)
unfolding kicked_out
kicked_out-some h none o e = absurd (cc)
kicked_out-some h (some q) o e = ground arith

pub set_trace-kicked :
    (h : Heap) (d : Ring) (r o : ℕ)
    → (set_trace h d r).1 ≡ some o
    → (slot d.insertion_order (looped d) ≡ some o) × ((h o).sent ≡ false)
unfolding set_trace
set_trace-kicked h d r o e = kicked_out-some h (slot d.insertion_order (looped d)) o e

module _ (F : SamplerFactory) (T : TraceSentCache) (cfg : Config) where
  open F use {Sampler}
  open T use {Sent}

  -- `send` of a trace that is not in the ring keeps the invariant.
  pub send-IsLive :
      (c : Collector Sampler Sent) (r : ℕ) (reason : Reason)
      → IsLive c
      → ((i : ℕ) → slot c.ring.insertion_order i ≢ some r)
      → IsLive (send F T cfg c r reason)
  send-IsLive c r reason v out =
      IsLive-same c (send F T cfg c r reason) (send-ring F T cfg c r reason)
        (send-next F T cfg c r reason)
        (λ i q e. (
          send-trace_id F T cfg c r reason q,
          ap (λ (t : Trace). t.sent)
              (send-heap_other F T cfg c r reason q (λ p. out i (e ∙ ap some (sym p)))),
        ))
        v

  module _ (c : Collector Sampler Sent) (t : Trace) (v : IsLive c)
      (new : lookup t.trace_id c.ring.cache ≡ none) (live : t.sent ≡ false) where
    abbrev heap : Heap
    heap = write c.heap c.next t

    heap_new : heap c.next ≡ t
    unfolding write
    heap_new = ground arith

    heap_old : (i q : ℕ) → slot c.ring.insertion_order i ≡ some q → heap q ≡ c.heap q
    unfolding write
    heap_old i q e = ground (arith, v.allocated i q e)

    IsValid-before : Valid.IsValid heap c.ring
    IsValid-before =
        IsValid-heap c.heap heap c.ring (λ i q e. ap (λ (s : Trace). s.trace_id) (heap_old i q e))
          v.valid

    absent : lookup (heap c.next).trace_id c.ring.cache ≡ none
    absent = rw heap_new new

    placed-slot :
        (i : ℕ)
        → slot (set_trace heap c.ring c.next).0.insertion_order i
          ≡ ite (ℕ_discrete (looped c.ring) i) (some c.next) (slot c.ring.insertion_order i)
    placed-slot = slot-set_trace heap c.ring c.next IsValid-before

    pub placed-IsLive : IsLive (placed F T c t)
    placed-IsLive = record {
      valid = set_trace-IsValid heap c.ring c.next IsValid-before absent;
      unsent = λ i r e. ground (arith, placed-slot i, heap_new, heap_old i r, v.unsent i r);
      allocated = λ i r e. ground (arith, placed-slot i, v.allocated i r);
    }

    -- What was kicked out stood in the ring, and no longer does.
    pub kicked_out_lem :
        (o : ℕ)
        → (set_trace heap c.ring c.next).1 ≡ some o
        → (slot c.ring.insertion_order (looped c.ring) ≡ some o)
          × ((i : ℕ) → slot (placed F T c t).ring.insertion_order i ≢ some o)
    kicked_out_lem o e =
        let here : slot c.ring.insertion_order (looped c.ring) ≡ some o =
          ground (arith, set_trace-kicked heap c.ring c.next o) in
        (
          here,
          λ i f. ground (
            arith,
            placed-slot i,
            v.allocated (looped c.ring) o here,
            v.valid.distinct (looped c.ring) i o here,
          ),
        )

  pub send_ejected-IsLive :
      (c : Collector Sampler Sent) (o : Option ℕ)
      → IsLive c
      → ((r : ℕ) → o ≡ some r → (i : ℕ) → slot c.ring.insertion_order i ≢ some r)
      → IsLive (send_ejected F T cfg c o)
  unfolding send_ejected
  send_ejected-IsLive c none v out = v
  send_ejected-IsLive c (some r) v out = send-IsLive c r Reason.ejected_full v (out r refl)

  pub counted-IsLive :
      (c : Collector Sampler Sent) (name : String) → IsLive c → IsLive (increment F T c name)
  unfolding increment
  counted-IsLive c name v = IsLive-same c (increment F T c name) refl refl (λ i r e. (refl, refl)) v

  -- A new trace: the ring takes it, and what it kicked out is sent.
  pub admit-IsLive :
      (now : ℕ) (c : Collector Sampler Sent) (sp : Span)
      → IsLive c
      → lookup sp.header.trace_id c.ring.cache ≡ none
      → IsLive (admit F T cfg now c sp)
  unfolding admit increment new_trace
  admit-IsLive now c sp v new =
      let t = new_trace cfg now sp in
      let p =
        placed-IsLive (increment F T c "trace_accepted") t (counted-IsLive c "trace_accepted" v) new
          refl in
      send_ejected-IsLive _ _ p λ r e.
        (kicked_out_lem (increment F T c "trace_accepted") t (counted-IsLive c "trace_accepted" v)
          new refl r e).1

  -- The trace at a pointer grows.
  pub grow-IsLive :
      (now : ℕ) (c : Collector Sampler Sent) (r : ℕ) (sp : Span)
      → IsLive c
      → IsLive (record c { heap = write c.heap r (grow cfg now sp (c.heap r)) })
  unfolding write grow add_span
  grow-IsLive now c r sp v = IsLive-same c _ refl refl (λ i q e. (ground arith, ground arith)) v
