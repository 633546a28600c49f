-- ===== src/Route/Otlp/Batches.antt =====
-- What the handlers of route/otlp_trace.go do with what peers send.
use tracing_proxy.Base.{
  ◌≡◌, refl, String, List, [], ◌∷◌, Bool, Option, none, some, arith, ◌∙◌, ◌↔◌, Option-cases,
  Result-cases, Result, inl, inr, ◌≢◌,
}
use tracing_proxy.Base.Fallible.{◌>>=◌, AnyOf, AllSome, bind-AllSome, bind_iff, some_iff, last_iff}
use tracing_proxy.Route.{
  Event, Sharder, Side, Outlets, process_event, count, send_upstream, collect_span, add_on, add,
  is_for_peer, same_side,
}
use tracing_proxy.Route.Lands.{process_event-cases}
use tracing_proxy.Route.Otlp.{
  ProxyItem, Answers, PeerReply, process_or_log, process_item, process_items, export_from_peer,
}

-- An item with a timestamp that can be read, and without data.
abbrev pub LacksData : ProxyItem → Type 0
LacksData item = (item.timestamp ≢ none) × (item.contents ≡ none)

to_peers-process_event :
    (sharder : Sharder) (ev : Event) (o : Outlets)
    → (process_event sharder Side.peer ev o).1.to_peers ≡ o.to_peers
unfolding send_upstream count is_for_peer same_side collect_span add_on add
to_peers-process_event sharder ev o =
    process_event-cases (λ p. p.1.to_peers ≡ o.to_peers) sharder Side.peer ev o refl
      (λ id e. absurd (cc e)) (ground arith)

-- Nothing more goes to a peer.
abbrev SamePeers : Outlets → Outlets → Type 0
SamePeers o o' = o'.to_peers ≡ o.to_peers

module _ (sharder : Sharder) (A : Answers) (keeps : Bool) where
  process_item-peers :
      (host : String) (item : ProxyItem) (o : Outlets)
      → AllSome (SamePeers o) (process_item sharder Side.peer A keeps host item o)
  unfolding process_item process_or_log
  process_item-peers host item o = elim (Option-cases item.timestamp) [
    | inl e ↦ rw (process_item, e) refl
    | inr (timestamp, e) ↦ elim (Option-cases item.contents) [
      | inl n ↦ rw (process_item, e, n) tt
      | inr (d, n) ↦ elim (Option-cases d.values) [
        | inl v ↦ rw (process_item, e, n, v) refl
        | inr (m, v) ↦ rw (process_item, e, n, v) (to_peers-process_event sharder _ o)
      ]
    ]
  ]

  process_items-peers :
      (host : String) (items : List ProxyItem) (o : Outlets)
      → AllSome (SamePeers o) (process_items sharder Side.peer A keeps host items o)
  unfolding process_items
  process_items-peers host [] o = refl
  process_items-peers host (item ∷ items) o =
      bind-AllSome (SamePeers o) (SamePeers o) _ _ (process_item-peers host item o) (λ o' same.
        bind-same o' same (process_items sharder Side.peer A keeps host items o')
          (process_items-peers host items o'))
    where
      bind-same :
          (o' : Outlets)
          → SamePeers o o'
          → (r : Option Outlets) → AllSome (SamePeers o') r
          → AllSome (SamePeers o) r
      bind-same o' same none h = tt
      bind-same o' same (some r) h = h ∙ same

  process_item_iff :
      (host : String) (item : ProxyItem) (o : Outlets)
      → (process_item sharder Side.peer A keeps host item o ≡ none) ↔ LacksData item
  unfolding process_item
  process_item_iff host item o = elim (Option-cases item.timestamp) [
    | inl e ↦ rw (process_item, e) (λ n. cc n, λ h. absurd (h.0 refl))
    | inr (timestamp, e) ↦ elim (Option-cases item.contents) [
      | inl n ↦ rw (process_item, e, n) (λ _. (λ c. cc c, refl), λ _. refl)
      | inr (d, n) ↦ elim (Option-cases d.values) [
        | inl v ↦ rw (process_item, e, n, v) (λ c. cc c, λ h. cc (h.1))
        | inr (m, v) ↦ rw (process_item, e, n, v) (λ c. cc c, λ h. cc (h.1))
      ]
    ]
  ]

  process_items_iff :
      (host : String) (items : List ProxyItem) (o : Outlets)
      → (process_items sharder Side.peer A keeps host items o ≡ none) ↔ AnyOf LacksData items
  unfolding process_items
  process_items_iff host [] o = some_iff o
  process_items_iff host (item ∷ items) o =
      bind_iff _ _ (process_item_iff host item o) (λ o'. process_items_iff host items o')

  abbrev after : Option Outlets → Option (PeerReply × Outlets)
  after m = m >>= λ o'. some (("Received Successfully by peer", "Success"), o')

  abbrev counted : Outlets → Outlets
  counted o = count Side.peer "_router_batch" o

  after-peers :
      (m : Option Outlets) (o o' : Outlets) (reply : PeerReply)
      → AllSome (SamePeers o) m
      → after m ≡ some (reply, o')
      → SamePeers o o'
  after-peers none o o' reply h r = absurd (cc r)
  after-peers (some x) o o' reply h r = cc (h, r)

  export-ok :
      (items : List ProxyItem) (o : Outlets) (host : String)
      → A.get_opsramp_api ≡ Result.ok host
      → export_from_peer sharder Side.peer A keeps items o
        ≡ after (process_items sharder Side.peer A keeps host items (counted o))
  unfolding export_from_peer
  export-ok items o host e = rw e refl

  export-err :
      (items : List ProxyItem) (o : Outlets) (f : String)
      → A.get_opsramp_api ≡ Result.err f
      → export_from_peer sharder Side.peer A keeps items o
        ≡ some (("Failed to get apihost", "Failed"), counted o)
  unfolding export_from_peer
  export-err items o f e = rw e refl

  after_iff :
      (host : String) (items : List ProxyItem) (o : Outlets)
      → (after (process_items sharder Side.peer A keeps host items o) ≡ none)
        ↔ AnyOf LacksData items
  after_iff host items o =
      last_iff (bind_iff _ _ (process_items_iff host items o) (λ o'. some_iff _))

  -- The handlers of what peers send, with and without span events, panic exactly if the API
  -- host can be read and some item has a timestamp that can be read and no data; and whenever
  -- the router for peers answers, it has forwarded nothing to a peer.
  pub export_from_peer_iff :
      (items : List ProxyItem) (o : Outlets)
      → ((export_from_peer sharder Side.peer A keeps items o ≡ none)
          ↔ (((host : String) × (A.get_opsramp_api ≡ Result.ok host)) × AnyOf LacksData items))
        × ((reply : PeerReply) (o' : Outlets)
            → export_from_peer sharder Side.peer A keeps items o ≡ some (reply, o')
            → o'.to_peers ≡ o.to_peers)
  unfolding count
  export_from_peer_iff items o = elim (Result-cases A.get_opsramp_api) [
    | inl (host, e) ↦ rw (export-ok items o host e) (
      (
        λ n. ((host, e), (after_iff host items (counted o)).0 n),
        λ h. (after_iff host items (counted o)).1 h.1,
      ),
      λ reply o' r.
          after-peers _ (counted o) o' reply (process_items-peers host items (counted o)) r,
    )
    | inr (f, e) ↦
        rw (export-err items o f e)
          ((λ n. absurd (cc n), λ h. absurd (cc (h.0.1, e))), λ reply o' r. cc r)
  ]
