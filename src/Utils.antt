-- ===== src/Utils.antt =====
-- pkg/utils/utils.go: the map behind a mutex, `SyncedMap`, with text keys. Each call is one step,
-- since it holds the lock. A map that has not been made is none.
use tracing_proxy.Base.{
  ◌≡◌, String, List, [], Option, none, some, text_discrete, ite, arith, Option-cases, inl, inr,
}
use tracing_proxy.Base.Dict.{lookup, insert, delete, lookup-insert, lookup-delete}

pub record SyncedMap (V : Type 0) : Type 0 where
  pub m : Option (List (String × V))

module _ {V : Type 0} where
  abbrev pub entries : SyncedMap V → List (String × V)
  entries s = elim s.m [ some m ↦ m | none ↦ [] ]

  -- `zero` is the value that Go gives for a missing key
  unfoldable pub get : V → String → SyncedMap V → V
  unfolding lookup
  get zero key s = elim (lookup key (entries s)) [ some v ↦ v | none ↦ zero ]

  unfoldable pub set : String → V → SyncedMap V → SyncedMap V
  unfolding insert
  set key value s = record { m = some (insert key value (entries s)) }

  -- `delete` on a map that has not been made does nothing.
  unfoldable pub remove : String → SyncedMap V → SyncedMap V
  unfolding delete
  remove key s = elim s.m [ some m ↦ record { m = some (delete key m) } | none ↦ s ]

  unfoldable pub clear : SyncedMap V → SyncedMap V
  clear s = record { m = some [] }

  -- a new map with the same entries
  unfoldable pub copy : SyncedMap V → List (String × V)
  copy s = entries s

  get-set :
      (zero : V) (key k : String) (value : V) (s : SyncedMap V)
      → get zero k (set key value s) ≡ ite (text_discrete key k) value (get zero k s)
  unfolding get set
  get-set zero key k value s = ground (arith, lookup-insert key k value (entries s))

  get-remove :
      (zero : V) (key k : String) (s : SyncedMap V)
      → get zero k (remove key s) ≡ ite (text_discrete key k) zero (get zero k s)
  unfolding get remove
  get-remove zero key k s = elim (Option-cases s.m) [
    | inl e ↦ rw e (ground arith)
    | inr (m, e) ↦ rw e (ground (arith, lookup-delete key k m))
  ]
