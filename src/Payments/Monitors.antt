-- ===== src/Payments/Monitors.antt =====
-- What the payment services promise about the calls that they make, as monitors over their runs.
use edn_core.Prelude.{◌≡◌, Option, none, some}
use edn_core.Text.{Text}
use edn_core.Errors.{ok}
use edn_core.Effects.{
  Call, Reply, get_by_nsu, find_by_intent_key, create_checkout, mark_provider_create_attempted,
  acquire_order_lock, release_order_lock, acquire_fingerprint_lock, release_fingerprint_lock,
  update_status, update_provider_url, upsert_payment,
}
use edn_core.Effects.Monitor.{Monitor}

-- How far a run is on the way to the provider: no attempt is on record, the attempt for an order is
-- on record, or the provider was called.
pub data Attempt : Type 0 where
  idle : Attempt
  marked : Text → Attempt
  called : Attempt

abbrev pub mark : Attempt → Text → Attempt
mark called nsu = called
mark _ nsu = marked nsu

abbrev attempt_step : Attempt → (c : Call) → Reply c → Attempt
attempt_step a (mark_provider_create_attempted nsu _) (ok _) = mark a nsu
attempt_step a (create_checkout _) _ = called
attempt_step a _ _ = a

abbrev AttemptCheck : Attempt → Call → Type 0
AttemptCheck a (create_checkout req) = a ≡ marked req.order_nsu
AttemptCheck a _ = Unit

-- The provider is asked for a checkout once at most, and only when the attempt is on record for the
-- same order.
abbrev pub provider_guard : Monitor Attempt
provider_guard = record {
  start = idle;
  step = attempt_step;
  check = AttemptCheck;
  trust = λ _ _. Unit;
}

-- A fetched order is the one that was asked for: `order_nsu` and `checkout_intent_key` are the
-- filters of the queries in internal/checkout/mongodb_repository.go.
abbrev pub Fetched : (c : Call) → Reply c → Type 0
Fetched (get_by_nsu nsu) (ok order) = order.order_nsu ≡ nsu
Fetched (find_by_intent_key key) (ok order) = order.checkout_intent_key ≡ key
Fetched _ _ = Unit

-- The locks that a run holds: key and token.
pub record Held : Type 0 where
  pub order_lock : Option (Text × Text)
  pub fingerprint_lock : Option (Text × Text)

abbrev pub no_locks : Held
no_locks = record { order_lock = none; fingerprint_lock = none }

abbrev owner : Option (Text × Text) → Option Text
owner none = none
owner (some (nsu, _)) = some nsu

abbrev lock_step : Held → (c : Call) → Reply c → Held
lock_step h (acquire_order_lock nsu token) (ok _) = record h { order_lock = some (nsu, token) }
lock_step h (release_order_lock _ _) _ = record h { order_lock = none }
lock_step h (acquire_fingerprint_lock hash token) (ok _) = record h {
  fingerprint_lock = some (hash, token);
}
lock_step h (release_fingerprint_lock _ _) _ = record h { fingerprint_lock = none }
lock_step h _ _ = h

abbrev BalanceCheck : Held → Call → Type 0
BalanceCheck h (acquire_order_lock _ _) = h.order_lock ≡ none
BalanceCheck h (release_order_lock nsu token) = h.order_lock ≡ some (nsu, token)
BalanceCheck h (acquire_fingerprint_lock _ _) = h.fingerprint_lock ≡ none
BalanceCheck h (release_fingerprint_lock hash token) = h.fingerprint_lock ≡ some (hash, token)
BalanceCheck h (create_checkout req) = owner h.order_lock ≡ some req.order_nsu
BalanceCheck h (mark_provider_create_attempted nsu _) = owner h.order_lock ≡ some nsu
BalanceCheck h _ = Unit

-- No lock is taken twice, each release gives back the lock that is held, by its key and token, and
-- an attempt is recorded and made under the lock of its order.
abbrev pub lock_balance : Monitor Held
lock_balance = record { start = no_locks; step = lock_step; check = BalanceCheck; trust = Fetched }

abbrev WriteCheck : Held → Call → Type 0
WriteCheck h (update_status nsu _ _) = owner h.order_lock ≡ some nsu
WriteCheck h (update_provider_url nsu _ _ _) = owner h.order_lock ≡ some nsu
WriteCheck h (upsert_payment payment) = owner h.order_lock ≡ some payment.order_nsu
WriteCheck h c = BalanceCheck h c

-- Besides, an order and its payments are written under the order's lock.
abbrev pub lock_guard : Monitor Held
lock_guard = record { start = no_locks; step = lock_step; check = WriteCheck; trust = Fetched }

-- No claim on how a run ends.
abbrev pub AnyEnd : {S A : Type 0} → S → A → Type 0
AnyEnd s a = Unit
