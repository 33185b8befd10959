-- ===== src/Effects/Run.antt =====
-- Running a program against an environment, which answers each call by any rule, in view of all
-- that was called before.
use edn_core.Prelude.{List, ◌∷◌}
use edn_core.Effects.{Call, Reply, Prog, ret, call}

abbrev Event : Type 0
Event = (c : Call) × Reply c

-- The newest event stands first.
abbrev pub History : Type 0
History = List Event

abbrev pub Environment : Type 0
Environment = History → (c : Call) → Reply c

unfoldable pub run : {A : Type 0} → Environment → History → Prog A → History × A
run env h (ret a) = (h, a)
run env h (call c k) = run env ((c, env h c) ∷ h) (k (env h c))
