-- ===== src/Members.antt =====
-- internal/redimem/redimem.go: who the peers are, by keys in Redis. The connection is a parameter:
-- what each SCAN answers, and the clock, at each step; so is `sort.Strings`.
pub mod Scans
pub mod Union
pub mod Watch
use Prim.Native.String.{◌++◌}
use tracing_proxy.Base.{
  ℕ, zero, suc, ◌+◌, Result, String, List, [], ◌∷◌, Option, none, some, Bool, true, false, ltb,
  if◌then◌else◌, same_text,
}
use mathlib.Core.List.{◌++◌ as append}

abbrev pub default_repeat_count : ℕ
default_repeat_count = 2

-- What a SCAN answers: the cursor and the keys. A failed call, an answer of another form and a part
-- of another type are errors.
pub record Scanned : Type 0 where
  pub cursor : String
  pub keys : List String

-- the answers of the server to the cursor at each step, and the time before it
pub record Redis : Type 0 where
  pub scan : ℕ → String → Result String Scanned
  pub clock : ℕ → ℕ

-- How a scan ends: with every key seen, with an error, or because the time is up.
pub data Outcome : Type 0 where
  finished : Outcome
  failed : String → Outcome
  timed_out : Outcome

-- The loop of `scan` from a step on, with the keys so far; none means that the fuel is used up.
unfoldable pub scan_from : Redis → ℕ → ℕ → ℕ → String → List String → Option (List String × Outcome)
unfolding same_text
scan_from redis stop_at zero i cursor keys = none
scan_from redis stop_at (suc fuel) i cursor keys =
    if ltb stop_at (redis.clock i) then some (keys, timed_out) else elim (redis.scan i cursor) [
      | Result.err e ↦ some (keys, failed e)
      | Result.ok r ↦
          let rest = scan_from redis stop_at fuel (suc i) r.cursor (append keys r.keys) in
          if same_text r.cursor "0" then some (append keys r.keys, finished) else rest
    ]

unfoldable pub scan : Redis → ℕ → ℕ → Option (List String × Outcome)
unfolding scan_from
scan redis timeout fuel = scan_from redis (redis.clock 0 + timeout) fuel 0 "0" []

-- the key of a member; the prefix is `globalPrefix`
unfoldable pub member_key : String → String → String → String
member_key global_prefix prefix name = global_prefix ++ "•" ++ prefix ++ "•" ++ name

-- the loop of `GetMembers` over the sorted names, after the one before
unfoldable pub compact : String → List String → List String
unfolding same_text
compact prev [] = []
compact prev (m ∷ ms) = elim (same_text m prev) [
  | true ↦ compact prev ms
  | false ↦ m ∷ compact m ms
]

-- the answers of `getMembersOnce`, one after the other; the first error ends the loop
unfoldable pub all_members : List (Result String (List String)) → Result String (List String)
all_members [] = Result.ok []
all_members (Result.err e ∷ rest) = Result.err e
all_members (Result.ok names ∷ rest) = elim (all_members rest) [
  | Result.ok more ↦ Result.ok (append names more)
  | Result.err e ↦ Result.err e
]

-- `GetMembers`, once a pool is there
unfoldable pub get_members :
    (List String → List String) → List (Result String (List String)) → Result String (List String)
unfolding all_members compact
get_members sort answers = elim (all_members answers) [
  | Result.ok names ↦ Result.ok (compact "" (sort names))
  | Result.err e ↦ Result.err e
]
