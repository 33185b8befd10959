-- ===== src/Ratelimit.antt =====
-- internal/platform/ratelimit/limiter.go: a fixed-window limiter. The map is a function from keys,
-- and the clock's reading is an argument. The code treats a negative limit or window as it does 0,
-- so both are natural numbers.
pub mod Window
pub mod Bound
use edn_core.Prelude.{
  ℕ, suc, ◌+◌, ◌-◌, ◌%◌, leb, Bool, true, false, not, ◌||◌, ◌==◌, Option, none, some, List, [], ◌∷◌,
  if◌then◌else◌,
}
use edn_core.Text.{Text, ◌=?◌}
use edn_core.Checkout.{Time, before}

pub record Entry : Type 0 where
  pub count : ℕ
  pub reset_at : Time

abbrev pub Entries : Type 0
Entries = Text → Option Entry

pub record Limiter : Type 0 where
  pub entries : Entries
  pub limit : ℕ
  pub window : ℕ
  pub ops : ℕ

abbrev pub new : ℕ → ℕ → Limiter
new limit window = record { entries = λ _. none; limit = limit; window = window; ops = 0 }

abbrev pub expired : Time → Entry → Bool
expired now current = not (before now current.reset_at)

abbrev pub live : Time → Option Entry → Option Entry
live now none = none
live now (some current) = if expired now current then none else some current

-- sweepExpired
unfoldable pub sweep_expired : Time → Entries → Entries
sweep_expired now entries key = live now (entries key)

abbrev pub store : Text → Entry → Entries → Entries
store key value entries k = if k =? key then some value else entries k

-- The decision on a key's entry: whether to accept, the time to wait, and the entry that is stored,
-- if one is.
unfoldable pub decide : ℕ → ℕ → Time → Option Entry → (Bool × ℕ) × Option Entry
decide limit window now none = ((true, 0), some (record { count = 1; reset_at = now + window }))
decide limit window now (some current) =
    if expired now current
    then ((true, 0), some (record { count = 1; reset_at = now + window }))
    else if leb limit current.count
    then ((false, current.reset_at - now), none)
    else ((true, 0), some (record current { count = suc current.count }))

abbrev pub store_if : Text → Option Entry → Entries → Entries
store_if key none entries = entries
store_if key (some value) entries = store key value entries

abbrev pub swept : Limiter → Time → Entries
swept l now = if suc l.ops % 100 == 0 then sweep_expired now l.entries else l.entries

-- Limiter.Allow
unfoldable pub allow : Limiter → Text → Time → Limiter × (Bool × ℕ)
unfolding sweep_expired decide
allow l key now =
    if l.limit == 0 || l.window == 0
    then (l, (true, 0))
    else let entries = swept l now in
      let (answer, stored) = decide l.limit l.window now (entries key) in
      (record l { entries = store_if key stored entries; ops = suc l.ops }, answer)

-- A sequence of requests, each with its time.
unfoldable pub answers : Limiter → List (Text × Time) → List (Bool × ℕ)
answers l [] = []
answers l ((key, now) ∷ requests) =
    let (next, answer) = allow l key now in answer ∷ answers next requests
