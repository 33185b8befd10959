-- ===== src/CheckoutStore.antt =====
-- internal/checkout/redis_store.go: the locks, the webhook marks and the cache of statuses in Redis, and
-- the counters. The adapter at the end of internal/payments/mongodb_repository.go passes the calls on.
pub mod Entries
pub mod Commands
pub mod Locks
use edn_core.Prelude.{ℕ, ◌==◌, ◌*◌, ltb, Bool, true, false, Option, none, some, ◌++◌, if◌then◌else◌}
use edn_core.Text.{Text, lit, ◌=?◌}
use edn_core.Checkout.{Time, second, minute, hour}
use edn_core.Errors.{sentinel, wrapped, other, Result, ok, err, lock_not_acquired}
use edn_core.Redis.{Redis, Script, Stored, text, number, GetReply, value, nil, no_reply}

abbrev ttl_webhook_idem : ℕ
ttl_webhook_idem = 24 * hour

abbrev pub ttl_order_lock : ℕ
ttl_order_lock = 15 * second

abbrev ttl_fingerprint_lock : ℕ
ttl_fingerprint_lock = 30 * second

abbrev ttl_checkout_status : ℕ
ttl_checkout_status = 30 * minute

abbrev ttl_rate_ip : ℕ
ttl_rate_ip = 1 * minute

abbrev ttl_rate_email : ℕ
ttl_rate_email = 5 * minute

abbrev is_token : Option Stored → Text → Bool
is_token none token = false
is_token (some (text v)) token = v =? token
is_token (some (number _)) token = false

-- releaseLockScript: DEL where GET is the token; DEL of a key that is there replies 1
unfoldable pub release_lock_script : Script
release_lock_script stored token = if is_token stored token then (true, 1) else (false, 0)

abbrev pub key_webhook_tx : Text → Text
key_webhook_tx transaction_nsu = lit "idem:webhook:tx:" ++ transaction_nsu

abbrev pub key_webhook_hash : Text → Text
key_webhook_hash event_hash = lit "idem:webhook:hash:" ++ event_hash

abbrev pub key_order_lock : Text → Text
key_order_lock order_nsu = lit "lock:order:" ++ order_nsu

abbrev pub key_fingerprint_lock : Text → Text
key_fingerprint_lock hash = lit "lock:checkout:fp:" ++ hash

abbrev pub key_checkout_status : Text → Text
key_checkout_status order_nsu = lit "checkout:status:" ++ order_nsu

abbrev pub key_rate_ip : Text → Text
key_rate_ip ip = lit "rate:checkout:ip:" ++ ip

abbrev pub key_rate_email : Text → Text
key_rate_email email_hash = lit "rate:checkout:email:" ++ email_hash

-- The error of a command without a reply, and SetNX's answer.
abbrev replied : Bool → Result (Unit {0})
replied true = ok tt
replied false = err (wrapped other)

abbrev pub lock_result : Option Bool → Result (Unit {0})
lock_result (some true) = ok tt
lock_result (some false) = err (sentinel lock_not_acquired)
lock_result none = err (wrapped other)

abbrev pub release_result : Option ℕ → Result (Unit {0})
release_result (some _) = ok tt
release_result none = err (wrapped other)

abbrev dedup_result : Option (ℕ × ℕ) → Result (Bool × Bool)
dedup_result none = err (wrapped other)
dedup_result (some (tx, hash)) = ok (ltb 0 tx, ltb 0 hash)

-- A cached status and whether it was found.
abbrev status_result : GetReply → Result (Option Stored)
status_result (value v) = ok (some v)
status_result nil = ok none
status_result no_reply = err (wrapped other)

module _ (r : Redis) where
  -- CheckWebhookDedup, SetWebhookTxSeen and SetWebhookHashSeen
  unfoldable pub check_webhook_dedup : Text → Text → Time → r.State → Result (Bool × Bool)
  check_webhook_dedup transaction_nsu event_hash now s =
      dedup_result
        (r.exists_both (key_webhook_tx transaction_nsu) (key_webhook_hash event_hash) now s)

  abbrev mark : Text → ℕ → Text → Time → r.State → r.State × Result (Unit {0})
  mark key ttl content now s = let (t, done) = r.set key content ttl now s in (t, replied done)

  unfoldable pub set_webhook_tx_seen : Text → Time → r.State → r.State × Result (Unit {0})
  set_webhook_tx_seen transaction_nsu =
      mark (key_webhook_tx transaction_nsu) ttl_webhook_idem (lit "1")

  unfoldable pub set_webhook_hash_seen : Text → Time → r.State → r.State × Result (Unit {0})
  set_webhook_hash_seen event_hash = mark (key_webhook_hash event_hash) ttl_webhook_idem (lit "1")

  abbrev acquire : Text → ℕ → Text → Time → r.State → r.State × Result (Unit {0})
  acquire key ttl token now s =
      let (t, taken) = r.set_nx key token ttl now s in (t, lock_result taken)

  abbrev release : Text → Text → Time → r.State → r.State × Result (Unit {0})
  release key token now s =
      let (t, deleted) = r.run_script release_lock_script key token now s in
      (t, release_result deleted)

  -- AcquireOrderLock and ReleaseOrderLock
  unfoldable pub acquire_order_lock : Text → Text → Time → r.State → r.State × Result (Unit {0})
  acquire_order_lock order_nsu = acquire (key_order_lock order_nsu) ttl_order_lock

  unfoldable pub release_order_lock : Text → Text → Time → r.State → r.State × Result (Unit {0})
  unfolding release_lock_script
  release_order_lock order_nsu = release (key_order_lock order_nsu)

  -- AcquireFingerprintLock and ReleaseFingerprintLock
  unfoldable pub acquire_fingerprint_lock :
      Text → Text → Time → r.State → r.State × Result (Unit {0})
  acquire_fingerprint_lock hash = acquire (key_fingerprint_lock hash) ttl_fingerprint_lock

  unfoldable pub release_fingerprint_lock :
      Text → Text → Time → r.State → r.State × Result (Unit {0})
  unfolding release_lock_script
  release_fingerprint_lock hash = release (key_fingerprint_lock hash)

  -- SetOrderStatus, GetOrderStatus and InvalidateOrderStatus
  unfoldable pub set_order_status : Text → Text → Time → r.State → r.State × Result (Unit {0})
  set_order_status order_nsu = mark (key_checkout_status order_nsu) ttl_checkout_status

  unfoldable pub get_order_status : Text → Time → r.State → Result (Option Stored)
  get_order_status order_nsu now s = status_result (r.get (key_checkout_status order_nsu) now s)

  unfoldable pub invalidate_order_status : Text → Time → r.State → r.State × Result (Unit {0})
  invalidate_order_status order_nsu now s =
      let (t, done) = r.del (key_checkout_status order_nsu) now s in (t, replied done)

  -- The deadline is set with the first count only; that reply is ignored.
  abbrev pub counted : Text → ℕ → Time → r.State × Option ℕ → r.State × Result ℕ
  counted key ttl now (t, none) = (t, err (wrapped other))
  counted key ttl now (t, some n) = (if n == 1 then (r.expire key ttl now t).0 else t, ok n)

  -- IncrCheckoutByIP and IncrCheckoutByEmailHash
  unfoldable pub incr_checkout_by_ip : Text → Time → r.State → r.State × Result ℕ
  incr_checkout_by_ip ip now s =
      counted (key_rate_ip ip) ttl_rate_ip now (r.incr (key_rate_ip ip) now s)

  unfoldable pub incr_checkout_by_email_hash : Text → Time → r.State → r.State × Result ℕ
  incr_checkout_by_email_hash email_hash now s =
      counted (key_rate_email email_hash) ttl_rate_email now
        (r.incr (key_rate_email email_hash) now s)
