-- ===== src/Members/Watch.antt =====
-- internal/peer/redis.go: the list of peers that a process keeps, as Redis answers. `sort` is
-- `sort.Strings`.
use tracing_proxy.Base.{
  ℕ, ◌+◌, ◌⊎◌, ◌<◌, if◌then◌else◌, Result, String, List, [], ◌∷◌, Bool, true, false, ◌&&◌,
  same_text, same_text_iff, ◌≡◌, refl, sym, ap, subst, ◌∙◌, arith, Bool-cases, inl, inr,
}

-- `calls` counts the rounds of calls of the callbacks.
pub record RedisPeers : Type 0 where
  pub peers : List String
  pub calls : ℕ

-- the answer of `GetMembers`
abbrev pub Answer : Type 0
Answer = Result String (List String)

unfoldable pub equal : List String → List String → Bool
unfolding same_text
equal [] [] = true
equal [] (y ∷ ys) = false
equal (x ∷ xs) [] = false
equal (x ∷ xs) (y ∷ ys) = same_text x y && equal xs ys

pub equal-same : (xs ys : List String) → equal xs ys ≡ true → xs ≡ ys
unfolding equal
equal-same [] [] e = refl
equal-same [] (y ∷ ys) e = absurd (cc e)
equal-same (x ∷ xs) [] e = absurd (cc e)
equal-same (x ∷ xs) (y ∷ ys) e =
    let same = (same_text_iff x y).0 (ground (arith, e)) in
    let rest = equal-same xs ys (ground (arith, e)) in cc (same, rest)

module _ (sort : List String → List String) where
  unfoldable pub update_peer_list_once : Answer → RedisPeers → RedisPeers
  update_peer_list_once (Result.err e) p = p
  update_peer_list_once (Result.ok current) p = record p { peers = sort current }

  -- the branch of `watchPeers` at a tick, with `oldPeerList`
  unfoldable pub watch_tick : Answer → List String × RedisPeers → List String × RedisPeers
  unfolding equal
  watch_tick (Result.err e) (old, p) = (old, p)
  watch_tick (Result.ok current) (old, p) =
      let new = sort current in
      if equal old new then (old, p) else (new, record { peers = new; calls = p.calls + 1 })

  unfoldable pub watch_ticks : List Answer → List String × RedisPeers → List String × RedisPeers
  unfolding watch_tick
  watch_ticks [] s = s
  watch_ticks (a ∷ more) s = watch_ticks more (watch_tick a s)

  -- `watchPeers` sorts the list in place.
  unfoldable pub watch_peers : List Answer → RedisPeers → List String × RedisPeers
  unfolding watch_ticks
  watch_peers answers p =
      let old = sort p.peers in watch_ticks answers (old, record p { peers = old })

  -- The last list that Redis gave, in order.
  abbrev pub latest : List Answer → List String → List String
  latest [] l = l
  latest (Result.err e ∷ more) l = latest more l
  latest (Result.ok current ∷ more) l = latest more (sort current)

  -- The list that a tick leaves is the one that it compares with at the next tick, and the latest.
  watch_tick-latest :
      (a : Answer) (old : List String) (p : RedisPeers)
      → old ≡ p.peers
      → ((watch_tick a (old, p)).0 ≡ (watch_tick a (old, p)).1.peers)
        × ((watch_tick a (old, p)).1.peers ≡ latest (a ∷ []) p.peers)
  unfolding watch_tick
  watch_tick-latest (Result.err e) old p same = (same, refl)
  watch_tick-latest (Result.ok current) old p same = elim (Bool-cases (equal old (sort current))) [
    | inl e ↦ rw (e, watch_tick) (same, sym same ∙ equal-same old (sort current) e)
    | inr e ↦ rw (e, watch_tick) (refl, refl)
  ]

  latest-next :
      (a : Answer) (more : List Answer) (l : List String)
      → latest more (latest (a ∷ []) l) ≡ latest (a ∷ more) l
  latest-next (Result.err e) more l = refl
  latest-next (Result.ok current) more l = refl

  watch_ticks-latest :
      (answers : List Answer) (old : List String) (p : RedisPeers)
      → old ≡ p.peers
      → (watch_ticks answers (old, p)).1.peers ≡ latest answers p.peers
  unfolding watch_ticks
  watch_ticks-latest [] old p same = refl
  watch_ticks-latest (a ∷ more) old p same =
      let (again, now) = watch_tick-latest a old p same in
      let (old', p') = watch_tick a (old, p) in
      watch_ticks-latest more old' p' again ∙ (ap (latest more) now ∙ latest-next a more p.peers)

  -- A tick that changes the list calls the callbacks.
  watch_tick-calls :
      (a : Answer) (old : List String) (p : RedisPeers)
      → ((watch_tick a (old, p)).1 ≡ p) ⊎ ((watch_tick a (old, p)).1.calls ≡ p.calls + 1)
  unfolding watch_tick
  watch_tick-calls (Result.err e) old p = inl refl
  watch_tick-calls (Result.ok current) old p = elim (Bool-cases (equal old (sort current))) [
    | inl e ↦ rw (e, watch_tick) (inl refl)
    | inr e ↦ rw (e, watch_tick) (inr refl)
  ]

  watch_ticks-calls :
      (answers : List Answer) (old : List String) (p : RedisPeers)
      → ((watch_ticks answers (old, p)).1 ≡ p) ⊎ (p.calls < (watch_ticks answers (old, p)).1.calls)
  unfolding watch_ticks
  watch_ticks-calls [] old p = inl refl
  watch_ticks-calls (a ∷ more) old p =
      let (old', p') = watch_tick a (old, p) in
      elim (watch_tick-calls a old p) [
        | inl same ↦
            subst
              (λ q.
                ((watch_ticks more (old', p')).1 ≡ q)
                ⊎ (q.calls < (watch_ticks more (old', p')).1.calls))
              same (watch_ticks-calls more old' p')
        | inr one ↦ elim (watch_ticks-calls more old' p') [
          | inl rest ↦ inr (omega (arith, ap (λ q. q.calls) rest, one))
          | inr rest ↦ inr (omega (arith, rest, one))
        ]
      ]

  -- Whatever Redis answers at the ticks of `watchPeers`, errors included, the list of peers is then
  -- the last one that it gave, in order, or the list at the start in order, if it gave none; and
  -- if the list is not the one at the start in order, callbacks have been called.
  pub watch_peers-latest :
      (answers : List Answer) (p : RedisPeers)
      → ((watch_peers answers p).1.peers ≡ latest answers (sort p.peers))
        × (((watch_peers answers p).1.peers ≡ sort p.peers)
            ⊎ (p.calls < (watch_peers answers p).1.calls))
  unfolding watch_peers
  watch_peers-latest answers p = (
    watch_ticks-latest answers (sort p.peers) (record p { peers = sort p.peers }) refl,
    elim (watch_ticks-calls answers (sort p.peers) (record p { peers = sort p.peers })) [
      | inl same ↦ inl (ap (λ q. q.peers) same)
      | inr called ↦ inr called
    ],
  )
