-- ===== src/Protection/Waiting.antt =====
-- A client that waits as long as it is told.
use edn_core.Prelude.{
  ℕ, suc, ◌+◌, ◌*◌, ◌%◌, ◌≤◌, ◌==◌, ltb, not, ◌≡◌, refl, sym, ap, ◌∙◌, subst, inl, inr, Bool,
  Bool-cases, true, false, ◌||◌, Option, none, some, List, [], ◌∷◌, All, arith, if◌then◌else◌,
}
use edn_core.Text.{Text, ◌=?◌}
use edn_core.Checkout.{Time, second}
use edn_core.Ratelimit.{Entry, Limiter, live, sweep_expired, decide, swept, store_if, allow}
use edn_core.Ratelimit.Window.{allowed, allow-enabled}
use edn_core.Protection.{client_key, retry_after_seconds, served, rate_limited, passage, protect}

retry_after_seconds-enough : (wait : ℕ) → wait ≤ retry_after_seconds wait * second
unfolding retry_after_seconds
retry_after_seconds-enough wait = ground arith

-- No window of the key is open at a time.
abbrev Freed : Time → Option Entry → Type 0
Freed at none = Unit
Freed at (some current) = current.reset_at ≤ at

Freed-live : (at now : Time) (o : Option Entry) → Freed at o → Freed at (live now o)
Freed-live at now none h = tt
Freed-live at now (some current) h = go (not (ltb now current.reset_at))
  where
    go : (b : Bool) → Freed at (if b then none else some current)
    go true = tt
    go false = h

Freed-swept :
    (at now : Time) (l : Limiter) (key : Text)
    → Freed at (l.entries key)
    → Freed at (swept l now key)
unfolding sweep_expired
Freed-swept at now l key h = go (suc l.ops % 100 == 0)
  where
    go : (b : Bool) → Freed at ((if b then (λ k. live now (l.entries k)) else l.entries) key)
    go true = Freed-live at now (l.entries key) h
    go false = h

decide-Freed :
    (limit window : ℕ) (at : Time) (o : Option Entry)
    → Freed at o
    → (decide limit window at o).0.0 ≡ true
unfolding decide
decide-Freed limit window at none h = refl
decide-Freed limit window at (some current) h = ground arith

decide-rejected :
    (limit window : ℕ) (now : Time) (o : Option Entry) (wait : ℕ)
    → (decide limit window now o).0 ≡ (false, wait)
    → ((decide limit window now o).1 ≡ none) × Freed (now + wait) o
unfolding decide
decide-rejected limit window now none wait h = cc
decide-rejected limit window now (some current) wait h = ground arith

-- A limiter without a limit or a window accepts and changes nothing.
abbrev is_off : Limiter → Bool
is_off l = l.limit == 0 || l.window == 0

allow-off :
    (l : Limiter) (key : Text) (now : Time) → is_off l ≡ true → allow l key now ≡ (l, (true, 0))
unfolding allow
allow-off l key now h = rw h

allow-on :
    (l : Limiter) (key : Text) (now : Time) → is_off l ≡ false → allow l key now ≡ allowed l key now
allow-on l key now h = allow-enabled l key now (ground arith) (ground arith)

allow-Freed :
    (l : Limiter) (key : Text) (at : Time) → Freed at (l.entries key) → (allow l key at).1.0 ≡ true
allow-Freed l key at h = elim (Bool-cases (is_off l)) [
  | inl off ↦ ap (λ r. r.1.0) (allow-off l key at off)
  | inr on ↦
      ap (λ r. r.1.0) (allow-on l key at on)
      ∙ decide-Freed l.limit l.window at (swept l at key) (Freed-swept at at l key h)
]

-- A request of another key.
allow-other :
    (l : Limiter) (key k : Text) (at now : Time)
    → (key =? k) ≡ false
    → Freed at (l.entries key)
    → Freed at ((allow l k now).0.entries key)
allow-other l key k at now other h = elim (Bool-cases (is_off l)) [
  | inl off ↦ subst (λ r. Freed at (r.0.entries key)) (sym (allow-off l k now off)) h
  | inr on ↦
      subst (λ r. Freed at (r.0.entries key)) (sym (allow-on l k now on))
        (stored (decide l.limit l.window now (swept l now k)).1)
]
  where
    stored : (o : Option Entry) → Freed at (store_if k o (swept l now) key)
    stored none = Freed-swept at now l key h
    stored (some current) = rw other (Freed-swept at now l key h)

allow-rejected :
    (l : Limiter) (key : Text) (now : Time) (wait : ℕ)
    → (allow l key now).1 ≡ (false, wait)
    → Freed (now + wait) ((allow l key now).0.entries key)
allow-rejected l key now wait h = elim (Bool-cases (is_off l)) [
  | inl off ↦ cc (h, allow-off l key now off)
  | inr on ↦
      let rejected =
        decide-rejected l.limit l.window now (swept l now key) wait
          (ap (λ r. r.1) (sym (allow-on l key now on)) ∙ h) in
      subst (λ r. Freed (now + wait) (r.0.entries key)) (sym (allow-on l key now on))
        (subst (λ o. Freed (now + wait) (store_if key o (swept l now) key)) (sym rejected.0)
          rejected.1)
]

Freed-later : (s t : Time) (o : Option Entry) → s ≤ t → Freed s o → Freed t o
Freed-later s t none le h = tt
Freed-later s t (some current) le h = ground arith

limited_by :
    (answer : Bool × ℕ) (secs : ℕ)
    → passage answer ≡ rate_limited secs
    → (answer ≡ (false, answer.1)) × (secs ≡ retry_after_seconds answer.1)
limited_by (true, wait) secs h = cc
limited_by (false, wait) secs h = (refl, cc)

served_of : (answer : Bool × ℕ) → answer.0 ≡ true → passage answer ≡ served
served_of (true, wait) h = refl
served_of (false, wait) h = cc

module _ (split_host_port : Text → Option Text) where
  -- Requests that follow one another.
  unfoldable pub protect_all : Limiter → List (Text × Time) → Limiter
  protect_all l [] = l
  protect_all l ((remote_addr, now) ∷ requests) =
      protect_all (protect split_host_port l remote_addr now).0 requests

  -- The request of another client.
  abbrev OfOther : Text → Text × Time → Type 0
  OfOther remote_addr (other, now) =
      (client_key split_host_port remote_addr =? client_key split_host_port other) ≡ false

  protect_all-Freed :
      (remote_addr : Text) (at : Time) (l : Limiter) (requests : List (Text × Time))
      → All (OfOther remote_addr) requests
      → Freed at (l.entries (client_key split_host_port remote_addr))
      → Freed at ((protect_all l requests).entries (client_key split_host_port remote_addr))
  unfolding protect_all protect
  protect_all-Freed remote_addr at l [] _ h = h
  protect_all-Freed remote_addr at l ((other, now) ∷ requests) (apart, rest) h =
      protect_all-Freed remote_addr at (protect split_host_port l other now).0 requests rest (
        allow-other l (client_key split_host_port remote_addr) (client_key split_host_port other) at
          now apart h)

  -- The header Retry-After of the payments middlewares keeps its promise: a client whose request one of
  -- them answered with 429 and who waits as many seconds as the header says is let through by it,
  -- whatever requests of other clients come between.
  pub protect-after_wait :
      (l : Limiter) (remote_addr : Text) (now at : Time) (secs : ℕ) (others : List (Text × Time))
      → (protect split_host_port l remote_addr now).1 ≡ rate_limited secs
      → All (OfOther remote_addr) others
      → now + secs * second ≤ at
      → (protect split_host_port
          (protect_all (protect split_host_port l remote_addr now).0 others)
          remote_addr
          at).1
        ≡ served
  unfolding protect
  protect-after_wait l remote_addr now at secs others limited apart waited =
      let key = client_key split_host_port remote_addr in
      let (rejected, told) = limited_by (allow l key now).1 secs limited in
      let enough = retry_after_seconds-enough (allow l key now).1.1 in
      served_of _ (
        allow-Freed _ key at (
          protect_all-Freed remote_addr at (allow l key now).0 others apart (
            Freed-later (now + (allow l key now).1.1) at _ (ground arith)
              (allow-rejected l key now (allow l key now).1.1 rejected))))
