-- ===== src/Effects/Monitor.antt =====
-- Monitors: what a program is allowed to call, in view of a state that the calls so far have left.
-- `Spec` is the obligation on a program's text, and `Spec-sound` carries it to every run.
use edn_core.Prelude.{◌≡◌, sym, subst, [], ◌∷◌}
use edn_core.Errors.{Error, Result, ok, err}
use edn_core.Effects.{Call, Reply, Prog, ret, call, bind, if_ok, ◌>>=◌}
use edn_core.Effects.Run.{History, Environment, run}

pub record Monitor (S : Type 0) : Type 1 where
  pub start : S
  pub step : S → (c : Call) → Reply c → S
  pub check : S → Call → Type 0
  -- what is relied on about a reply
  pub trust : (c : Call) → Reply c → Type 0

module _ {S : Type 0} (m : Monitor S) where
  abbrev pub state : History → S
  state [] = m.start
  state ((c, r) ∷ h) = m.step (state h) c r

  -- Each call of the history was allowed when it was made.
  abbrev pub Allowed : History → Type 0
  Allowed [] = Unit
  Allowed ((c, r) ∷ h) = Allowed h × m.check (state h) c

  -- From state `s` the program makes allowed calls only, and ends with `Q`.
  abbrev pub Spec : {A : Type 0} → (S → A → Type 0) → S → Prog A → Type 0
  Spec Q s (ret a) = Q s a
  Spec Q s (call c k) = m.check s c × ((r : Reply c) → m.trust c r → Spec Q (m.step s c r) (k r))

  -- The environment answers as it is relied on to.
  abbrev pub Trusted : Environment → Type 0
  Trusted env = (h : History) (c : Call) → m.trust c (env h c)

  pub Spec-sound :
      {A : Type 0} (Q : S → A → Type 0) (env : Environment) (h : History) (p : Prog A)
      → Trusted env
      → Allowed h
      → Spec Q (state h) p
      → Allowed (run env h p).0 × Q (state (run env h p).0) (run env h p).1
  unfolding run
  Spec-sound Q env h (ret a) trusted allowed spec = (allowed, spec)
  Spec-sound Q env h (call c k) trusted allowed spec =
      Spec-sound Q env ((c, env h c) ∷ h) (k (env h c)) trusted (allowed, spec.0)
        (spec.1 (env h c) (trusted h c))

  pub Spec-bind :
      {A B : Type 0} (Q : S → A → Type 0) (R : S → B → Type 0) (s : S) (p : Prog A) (f : A → Prog B)
      → Spec Q s p
      → ((t : S) (a : A) → Q t a → Spec R t (f a))
      → Spec R s (bind p f)
  Spec-bind Q R s (ret a) f spec next = next s a spec
  Spec-bind Q R s (call c k) f spec next =
      (spec.0, λ r t. Spec-bind Q R (m.step s c r) (k r) f (spec.1 r t) next)

  -- A part that ends in the state that it began in.
  abbrev pub Stays : {A : Type 0} → S → S → A → Type 0
  Stays s t a = t ≡ s

  pub Spec-after :
      {A B : Type 0} (R : S → B → Type 0) (s : S) (p : Prog A) (f : A → Prog B)
      → Spec (Stays s) s p
      → ((a : A) → Spec R s (f a))
      → Spec R s (bind p f)
  Spec-after {A} R s p f spec next =
      Spec-bind (Stays s) R s p f spec (λ t a e. subst (λ u. Spec R u (f a)) (sym e) (next a))

  pub Spec-then :
      {A B : Type 0} (R : S → Result B → Type 0) (s : S) (p : Prog (Result A))
      (f : A → Prog (Result B))
      → Spec (Stays s) s p
      → ((a : A) → Spec R s (f a))
      → ((e : Error) → R s (err e))
      → Spec R s (p >>= f)
  Spec-then {A} {B} R s p f spec next failed = Spec-after R s p (if_ok f) spec go
    where
      go : (r : Result A) → Spec R s (if_ok f r)
      go (ok a) = next a
      go (err e) = failed e

  -- What a part may call, with nothing said of its end.
  pub Spec-any :
      {A : Type 0} (Q : S → A → Type 0) (s : S) (p : Prog A)
      → Spec Q s p
      → Spec {A = A} (λ _ _. Unit) s p
  Spec-any Q s (ret a) spec = tt
  Spec-any Q s (call c k) spec = (spec.0, λ r t. Spec-any Q (m.step s c r) (k r) (spec.1 r t))
