-- ===== src/Redis.antt =====
-- What the checkout store uses of the Redis client (github.com/redis/go-redis), which is not part of the
-- repository: a database as a parameter, with its documented behaviour as laws. Each command runs
-- atomically at a time of the server. An entry past its deadline counts as absent. A command may get
-- no reply, and a write without a reply may or may not have been made.
use edn_core.Prelude.{ℕ, ◌+◌, ltb, ◌≡◌, ◌⊎◌, Bool, true, false, Option, none, some, if◌then◌else◌}
use edn_core.Text.{Text, ◌=?◌}
use edn_core.Checkout.{Time}

pub data Stored : Type 0 where
  text : Text → Stored
  number : ℕ → Stored

pub record Entry : Type 0 where
  pub value : Stored
  pub deadline : Option Time

abbrev pub Entries : Type 0
Entries = Text → Option Entry

abbrev before_deadline : Time → Option Time → Bool
before_deadline now none = true
before_deadline now (some deadline) = ltb now deadline

abbrev pub live : Time → Option Entry → Bool
live now none = false
live now (some e) = before_deadline now e.deadline

abbrev pub put : Text → Option Entry → Entries → Entries
put key e es k = if k =? key then e else es k

-- An entry that expires `ttl` from now.
abbrev pub expiring : Stored → ℕ → Time → Option Entry
expiring value ttl now = some (record { value = value; deadline = some (now + ttl) })

-- A server-side script: it reads the value under its key and says whether to delete it, and replies.
abbrev pub Script : Type 0
Script = Option Stored → Text → Bool × ℕ

abbrev pub value_of : Time → Option Entry → Option Stored
value_of now none = none
value_of now (some e) = if before_deadline now e.deadline then some e.value else none

pub data GetReply : Type 0 where
  value : Stored → GetReply
  nil no_reply : GetReply

pub record Redis : Type 1 where
  pub State : Type 0
  pub entries : State → Entries
  pub set : Text → Text → ℕ → Time → State → State × Bool
  pub set_nx : Text → Text → ℕ → Time → State → State × Option Bool
  pub get : Text → Time → State → GetReply
  pub exists_both : Text → Text → Time → State → Option (ℕ × ℕ)
  pub del : Text → Time → State → State × Bool
  pub run_script : Script → Text → Text → Time → State → State × Option ℕ
  pub incr : Text → Time → State → State × Option ℕ
  pub expire : Text → ℕ → Time → State → State × Bool

abbrev Same : Entries → Entries → Type 0
Same es fs = (k : Text) → es k ≡ fs k

-- A write that was made, or, without a reply, may have been.
abbrev pub Written : Entries → Entries → Bool → Entries → Type 0
Written es written true fs = Same fs written
Written es written false fs = Same fs es ⊎ Same fs written

abbrev pub SetNx : Text → Stored → ℕ → Time → Entries → Option Bool → Entries → Type 0
SetNx key v ttl now es (some true) fs =
    (live now (es key) ≡ false) × Same fs (put key (expiring v ttl now) es)
SetNx key v ttl now es (some false) fs = (live now (es key) ≡ true) × Same fs es
SetNx key v ttl now es none fs =
    Same fs es ⊎ ((live now (es key) ≡ false) × Same fs (put key (expiring v ttl now) es))

abbrev pub script_effect : Script → Text → Text → Time → Entries → Entries
script_effect script key arg now es =
    if (script (value_of now (es key)) arg).0 then put key none es else es

abbrev pub Ran : Script → Text → Text → Time → Entries → Option ℕ → Entries → Type 0
Ran script key arg now es (some n) fs =
    (n ≡ (script (value_of now (es key)) arg).1) × Same fs (script_effect script key arg now es)
Ran script key arg now es none fs = Same fs es ⊎ Same fs (script_effect script key arg now es)

abbrev pub Got : Option Stored → GetReply → Type 0
Got o (value v) = o ≡ some v
Got o nil = o ≡ none
Got o no_reply = Unit

abbrev pub count_live : Time → Option Entry → ℕ
count_live now e = if live now e then 1 else 0

-- An increment changes its own key only.
abbrev pub OnlyKey : Text → Entries → Entries → Type 0
OnlyKey key es fs = (k : Text) → (k =? key) ≡ false → fs k ≡ es k

pub record RedisLaws (r : Redis) : Type 0 where
  pub set_law :
      (k v : Text) (ttl : ℕ) (now : Time) (s : r.State)
      → Written
          (r.entries s)
          (put k (expiring (text v) ttl now) (r.entries s))
          (r.set k v ttl now s).1
          (r.entries (r.set k v ttl now s).0)
  pub set_nx_law :
      (k v : Text) (ttl : ℕ) (now : Time) (s : r.State)
      → SetNx k
          (text v)
          ttl
          now
          (r.entries s)
          (r.set_nx k v ttl now s).1
          (r.entries (r.set_nx k v ttl now s).0)
  pub get_law :
      (k : Text) (now : Time) (s : r.State) → Got (value_of now (r.entries s k)) (r.get k now s)
  pub exists_law :
      (j k : Text) (now : Time) (s : r.State) (m n : ℕ)
      → r.exists_both j k now s ≡ some (m, n)
      → (m ≡ count_live now (r.entries s j)) × (n ≡ count_live now (r.entries s k))
  pub del_law :
      (k : Text) (now : Time) (s : r.State)
      → Written
          (r.entries s)
          (put k none (r.entries s))
          (r.del k now s).1
          (r.entries (r.del k now s).0)
  pub script_law :
      (f : Script) (k arg : Text) (now : Time) (s : r.State)
      → Ran f k arg now
          (r.entries s)
          (r.run_script f k arg now s).1
          (r.entries (r.run_script f k arg now s).0)
  pub incr_law :
      (k : Text) (now : Time) (s : r.State) → OnlyKey k (r.entries s) (r.entries (r.incr k now s).0)
  pub expire_law :
      (k : Text) (ttl : ℕ) (now : Time) (s : r.State)
      → OnlyKey k (r.entries s) (r.entries (r.expire k ttl now s).0)
