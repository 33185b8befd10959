-- ===== src/Ratelimit/Bound.antt =====
-- How many requests a window accepts.
use edn_core.Prelude.{
  ◌∙◌, subst, ℕ, suc, ◌+◌, ◌≤◌, ◌<◌, ◌≡◌, refl, sym, ap, Bool, true, Option, none, some, List, [],
  ◌∷◌, arith, if◌then◌else◌,
}
use edn_core.Text.{Text, Text-discrete, ◌=?◌}
use edn_core.Text.Laws.{test-same, test-other}
use edn_core.Checkout.{Time}
use edn_core.Ratelimit.{
  Entry, Entries, Limiter, live, store, decide, store_if, swept, allow, answers,
}
use edn_core.Ratelimit.Window.{window_answers, Monotone, swept-Agree, allow-enabled, answers-window}

-- How many of a key's requests were accepted.
abbrev accept : Bool → Bool → ℕ → ℕ
accept true true n = suc n
accept _ _ n = n

unfoldable pub accepted : Text → List (Text × Time) → List (Bool × ℕ) → ℕ
accepted key ((k, _) ∷ requests) ((b, _) ∷ rest) = accept (k =? key) b (accepted key requests rest)
accepted key _ _ = 0

-- Every request comes before `end`.
abbrev Before : Time → List (Text × Time) → Type 0
Before end [] = Unit
Before end ((_, now) ∷ requests) = (now < end) × Before end requests

store-same : (key : Text) (value : Entry) (f : Entries) → store key value f key ≡ some value
store-same key value f = ap (λ b. if b then some value else f key) (test-same key)

store-other :
    (key k : Text) (stored : Option Entry) (f : Entries)
    → (k ≡ key → ⊥)
    → store_if k stored f key ≡ f key
store-other key k none f ne = refl
store-other key k (some value) f ne =
    ap (λ b. if b then some value else f key) (test-other k key (λ e. ne (sym e)))

-- A request of the key in its window uses up one of the rest, or is rejected.
hit :
    (limit window now : ℕ) (f : Entries) (key : Text) (current : Entry) (rest : Entries → ℕ)
    → current.count ≤ limit
    → now < current.reset_at
    → rest f + current.count ≤ limit
    → (current.count < limit
        → rest (store key (record current { count = suc current.count }) f) + suc current.count
          ≤ limit)
    → accept true
          (decide limit window now (some current)).0.0
          (rest (store_if key (decide limit window now (some current)).1 f))
        + current.count
      ≤ limit
unfolding decide
hit limit window now f key current rest le lt kept used = ground arith

-- One request, given the bound on what follows it.
module _ (limit window now : ℕ) (f : Entries) (key : Text) (current : Entry) (rest : Entries → ℕ)
    (h : f key ≡ some current) (le : current.count ≤ limit) (lt : now < current.reset_at)
    (ih : (g : Entries) (count : ℕ)
      → g key ≡ some (record current { count = count })
      → count ≤ limit
      → rest g + count ≤ limit) where
  -- What is accepted after a request, with the test of its key and its entry.
  abbrev left : Text → Bool → Option Entry → ℕ
  left k b e =
      accept b (decide limit window now e).0.0 (rest (store_if k (decide limit window now e).1 f))

  bounded-hit : left key (key =? key) (f key) + current.count ≤ limit
  bounded-hit =
      subst (λ b. left key b (f key) + current.count ≤ limit) (sym (test-same key))
        (subst (λ e. left key true e + current.count ≤ limit) (sym h)
          (hit limit window now f key current rest le lt (ih f current.count h le)
            (λ less. ih _ (suc current.count) (store-same key _ f) (omega arith))))

  bounded-request : (k : Text) → Dec (k ≡ key) → left k (k =? key) (f k) + current.count ≤ limit
  bounded-request k (yes e) =
      subst (λ k. left k (k =? key) (f k) + current.count ≤ limit) (sym e) bounded-hit
  bounded-request k (no ne) =
      subst (λ b. left k b (f k) + current.count ≤ limit) (sym (test-other key k ne))
        (ih _ current.count (store-other key k (decide limit window now (f k)).1 f ne ∙ h) le)

bounded :
    (limit window : ℕ) (f : Entries) (key : Text) (current : Entry) (requests : List (Text × Time))
    → f key ≡ some current
    → current.count ≤ limit
    → Before current.reset_at requests
    → accepted key requests (window_answers limit window f requests) + current.count ≤ limit
unfolding accepted window_answers
bounded limit window f key current [] h le within = ground arith
bounded limit window f key current ((k, now) ∷ requests) h le (lt, within) =
    bounded-request limit window now f key current
      (λ g. accepted key requests (window_answers limit window g requests)) h le lt
      (λ g count h2 le2.
        bounded limit window g key (record current { count = count }) requests h2 le2 within)
      k (Text-discrete k key)

-- The entry of a window that a request has opened.
abbrev opened : Limiter → Time → Entry
opened l now = record { count = 1; reset_at = now + l.window }

decide-opens :
    (l : Limiter) (now : Time) (e : Option Entry)
    → live now e ≡ none
    → decide l.limit l.window now e ≡ ((true, 0), some (opened l now))
unfolding decide
decide-opens l now e h = ground arith

-- For a positive limit and window: a key that has no unexpired entry is accepted, and of the
-- requests that follow before the window's end, at times that do not go back, so many are accepted
-- at most that they are no more than the limit together with it.
pub allow-window_bound :
    (l : Limiter) (key : Text) (now : Time) (requests : List (Text × Time))
    → 0 < l.limit
    → 0 < l.window
    → live now (l.entries key) ≡ none
    → Monotone now requests
    → Before (now + l.window) requests
    → ((allow l key now).1 ≡ (true, 0))
      × (accepted key requests (answers (allow l key now).0 requests) + 1 ≤ l.limit)
allow-window_bound l key now requests h1 h2 none_live monotone within = (
  ap (λ r. r.1) (allow-enabled l key now h1 h2) ∙ ap (λ d. d.0) opens,
  subst (λ r. accepted key requests r + 1 ≤ l.limit) (sym after)
      (bounded l.limit l.window _ key (opened l now) requests
        (store-same key (opened l now) (swept l now)) (ground arith) within),
)
  where
    opens : decide l.limit l.window now (swept l now key) ≡ ((true, 0), some (opened l now))
    opens =
        decide-opens l now (swept l now key)
          (swept-Agree now l l.entries (λ k. refl) key ∙ none_live)

    stored :
        (allow l key now).0
        ≡ record l { entries = store key (opened l now) (swept l now); ops = suc l.ops }
    stored =
        ap (λ r. r.0) (allow-enabled l key now h1 h2)
        ∙ ap (λ d. record l { entries = store_if key d.1 (swept l now); ops = suc l.ops }) opens

    after :
        answers (allow l key now).0 requests
        ≡ window_answers l.limit l.window (store key (opened l now) (swept l now)) requests
    after = ap (λ m. answers m requests) stored ∙ answers-window _ now requests h1 h2 monotone
