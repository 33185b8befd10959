-- ===== src/Ratelimit/Window.antt =====
-- The limiter against one that never sweeps.
use edn_core.Prelude.{
  ◌%◌, ◌==◌, ◌∙◌, subst, ℕ, suc, ◌≤◌, ◌<◌, ◌≡◌, refl, sym, ap, Bool, true, false, Option, none,
  some, List, [], ◌∷◌, arith, if◌then◌else◌,
}
use edn_core.Text.{Text, ◌=?◌}
use edn_core.Checkout.{Time}
use edn_core.Ratelimit.{
  Entry, Entries, Limiter, live, sweep_expired, decide, store_if, swept, allow, answers,
}

-- The description: a window per key, and no sweeping.
unfoldable pub window_answers : ℕ → ℕ → Entries → List (Text × Time) → List (Bool × ℕ)
window_answers limit window entries [] = []
window_answers limit window entries ((key, now) ∷ requests) =
    let (answer, stored) = decide limit window now (entries key) in
    answer ∷ window_answers limit window (store_if key stored entries) requests

-- The clock does not go back from `now` on.
abbrev pub Monotone : Time → List (Text × Time) → Type 0
Monotone now [] = Unit
Monotone now ((_, time) ∷ requests) = (now ≤ time) × Monotone time requests

-- Two maps agree on what has not expired.
abbrev Agree : Time → Entries → Entries → Type 0
Agree now e f = (key : Text) → live now (e key) ≡ live now (f key)

live-later : (s t : Time) (e : Option Entry) → s ≤ t → live t (live s e) ≡ live t e
live-later s t none h = refl
live-later s t (some current) h = ground arith

Agree-later : (s t : Time) (e f : Entries) → s ≤ t → Agree s e f → Agree t e f
Agree-later s t e f h agree key =
    sym (live-later s t (e key) h) ∙ ap (live t) (agree key) ∙ live-later s t (f key) h

decide-live :
    (limit window : ℕ) (now : Time) (e : Option Entry)
    → decide limit window now (live now e) ≡ decide limit window now e
unfolding decide
decide-live limit window now none = refl
decide-live limit window now (some current) = ground arith

Agree-store :
    (now : Time) (key : Text) (stored : Option Entry) (e f : Entries)
    → Agree now e f
    → Agree now (store_if key stored e) (store_if key stored f)
Agree-store now key none e f agree k = agree k
Agree-store now key (some value) e f agree k = by_key (k =? key)
  where
    by_key :
        (b : Bool)
        → live now (if b then some value else e k) ≡ live now (if b then some value else f k)
    by_key true = refl
    by_key false = agree k

pub swept-Agree :
    (now : Time) (l : Limiter) (f : Entries) → Agree now l.entries f → Agree now (swept l now) f
unfolding sweep_expired
swept-Agree now l f agree k = by_turn (suc l.ops % 100 == 0)
  where
    by_turn :
        (b : Bool)
        → live now ((if b then (λ key. live now (l.entries key)) else l.entries) k) ≡ live now (f k)
    by_turn true = live-later now now (l.entries k) (ground arith) ∙ agree k
    by_turn false = agree k

decide-agree :
    (limit window : ℕ) (now : Time) (e f : Option Entry)
    → live now e ≡ live now f
    → decide limit window now e ≡ decide limit window now f
decide-agree limit window now e f h =
    sym (decide-live limit window now e)
    ∙ ap (decide limit window now) h
    ∙ decide-live limit window now f

abbrev pub allowed : Limiter → Text → Time → Limiter × (Bool × ℕ)
allowed l key now = (
  record l {
    entries = store_if key (decide l.limit l.window now (swept l now key)).1 (swept l now);
    ops = suc l.ops;
  },
  (decide l.limit l.window now (swept l now key)).0,
)

pub allow-enabled :
    (l : Limiter) (key : Text) (now : Time)
    → 0 < l.limit
    → 0 < l.window
    → allow l key now ≡ allowed l key now
unfolding allow
allow-enabled l key now h1 h2 = ground arith

answers-Agree :
    (l : Limiter) (f : Entries) (start : Time) (requests : List (Text × Time))
    → 0 < l.limit
    → 0 < l.window
    → Monotone start requests
    → Agree start l.entries f
    → answers l requests ≡ window_answers l.limit l.window f requests
unfolding answers window_answers
answers-Agree l f start [] h1 h2 monotone agree = refl
answers-Agree l f start ((key, now) ∷ requests) h1 h2 (le, monotone) agree =
    ap (λ r. r.1 ∷ answers r.0 requests) (allow-enabled l key now h1 h2)
    ∙ ap (λ r. r ∷ answers (allowed l key now).0 requests) (ap (λ d. d.0) same)
    ∙ ap (λ r. (decide l.limit l.window now (f key)).0 ∷ r)
        (answers-Agree (allowed l key now).0 _ now requests h1 h2 monotone stored)
  where
    later : Agree now (swept l now) f
    later = swept-Agree now l f (Agree-later start now l.entries f le agree)

    same : decide l.limit l.window now (swept l now key) ≡ decide l.limit l.window now (f key)
    same = decide-agree l.limit l.window now (swept l now key) (f key) (later key)

    stored :
        Agree now
          (allowed l key now).0.entries
          (store_if key (decide l.limit l.window now (f key)).1 f)
    stored =
        subst (λ d. Agree now (allowed l key now).0.entries (store_if key d.1 f)) same
          (Agree-store now key (decide l.limit l.window now (swept l now key)).1 (swept l now) f
            later)

-- For a positive limit and window, the limiter answers each sequence of requests whose times do not
-- go back as the limiter does that keeps a window per key and never sweeps its map.
pub answers-window :
    (l : Limiter) (start : Time) (requests : List (Text × Time))
    → 0 < l.limit
    → 0 < l.window
    → Monotone start requests
    → answers l requests ≡ window_answers l.limit l.window l.entries requests
answers-window l start requests h1 h2 monotone =
    answers-Agree l l.entries start requests h1 h2 monotone (λ key. refl)
