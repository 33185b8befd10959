-- ===== src/CheckoutStore/Commands.antt =====
-- The writes of the store, and that they leave a lock alone that another one holds.
use edn_core.Prelude.{
  ℕ, ◌≤◌, ◌<◌, ltb, ◌==◌, ◌≡◌, ◌≢◌, sym, ap, ◌∙◌, inl, inr, Bool-cases, false, Option, none, some,
  List, [], ◌∷◌, drop, arith,
}
use edn_core.Text.{Text, lit, ◌=?◌}
use edn_core.Text.Laws.{test_of_eq, test-other}
use edn_core.Checkout.{Time}
use edn_core.Redis.{Redis, RedisLaws, live}
use edn_core.CheckoutStore.{
  key_webhook_tx, key_webhook_hash, key_order_lock, key_fingerprint_lock, key_checkout_status,
  key_rate_ip, key_rate_email, release_lock_script, set_webhook_tx_seen, set_webhook_hash_seen,
  acquire_order_lock, release_order_lock, acquire_fingerprint_lock, release_fingerprint_lock,
  set_order_status, invalidate_order_status, incr_checkout_by_ip, incr_checkout_by_email_hash,
  counted,
}
use edn_core.CheckoutStore.Entries.{Written-other, SetNx-live, Ran-kept, ltb_of_lt, LockedBy}

-- The writes of the store.
pub data Command : Type 0 where
  marks_tx marks_hash counts_ip counts_email invalidates : Text → Command
  caches_status acquires_order releases_order acquires_fingerprint releases_fingerprint :
      Text → Text → Command

module _ (r : Redis) where
  unfoldable pub issue : Command → Time → r.State → r.State
  issue (marks_tx nsu) now s = (set_webhook_tx_seen r nsu now s).0
  issue (marks_hash hash) now s = (set_webhook_hash_seen r hash now s).0
  issue (counts_ip ip) now s = (incr_checkout_by_ip r ip now s).0
  issue (counts_email hash) now s = (incr_checkout_by_email_hash r hash now s).0
  issue (invalidates nsu) now s = (invalidate_order_status r nsu now s).0
  issue (caches_status nsu status) now s = (set_order_status r nsu status now s).0
  issue (acquires_order nsu token) now s = (acquire_order_lock r nsu token now s).0
  issue (releases_order nsu token) now s = (release_order_lock r nsu token now s).0
  issue (acquires_fingerprint hash token) now s = (acquire_fingerprint_lock r hash token now s).0
  issue (releases_fingerprint hash token) now s = (release_fingerprint_lock r hash token now s).0

  unfoldable pub issue_all : List (Time × Command) → r.State → r.State
  issue_all [] s = s
  issue_all ((now, command) ∷ commands) s = issue_all commands (issue command now s)

-- The key of the order lock is that of no other entry.
module _ (nsu x : Text) where
  tx_apart : (key_order_lock nsu =? key_webhook_tx x) ≡ false
  tx_apart = test-other _ _ (λ e. ground arith)

  hash_apart : (key_order_lock nsu =? key_webhook_hash x) ≡ false
  hash_apart = test-other _ _ (λ e. ground arith)

  status_apart : (key_order_lock nsu =? key_checkout_status x) ≡ false
  status_apart = test-other _ _ (λ e. ground arith)

  ip_apart : (key_order_lock nsu =? key_rate_ip x) ≡ false
  ip_apart = test-other _ _ (λ e. ground arith)

  email_apart : (key_order_lock nsu =? key_rate_email x) ≡ false
  email_apart = test-other _ _ (λ e. ground arith)

  fingerprint_apart : (key_order_lock nsu =? key_fingerprint_lock x) ≡ false
  fingerprint_apart = test-other _ _ (λ e. ground arith)

key_order_lock-injective : (a b : Text) → key_order_lock a ≡ key_order_lock b → a ≡ b
key_order_lock-injective a b e = ap (drop 11) e

-- The command is not the release by the holder.
abbrev NotTheRelease : Text → Text → Command → Type 0
NotTheRelease nsu token (releases_order order other) = order ≡ nsu → other ≢ token
NotTheRelease nsu token _ = Unit

pub ltb_of_le : (a b : ℕ) → a ≤ b → ltb b a ≡ false
ltb_of_le a b h = ground arith

ne_of_test : (a b : Text) → (a =? b) ≡ false → a ≢ b
ne_of_test a b h = λ e. cc (h, test_of_eq a b e)

-- What may happen while the lock is held: commands before its deadline, other than its release.
abbrev pub Meanwhile : Text → Text → Time → Time × Command → Type 0
Meanwhile nsu token deadline (now, command) = (now < deadline) × NotTheRelease nsu token command

module _ (r : Redis) (laws : RedisLaws r) (nsu token : Text) (deadline : Time) where
  counted-kept :
      (k : Text) (ttl : ℕ) (now : Time) (s : r.State) (counting : r.State × Option ℕ)
      → (key_order_lock nsu =? k) ≡ false
      → r.entries counting.0 (key_order_lock nsu) ≡ r.entries s (key_order_lock nsu)
      → r.entries (counted r k ttl now counting).0 (key_order_lock nsu)
        ≡ r.entries s (key_order_lock nsu)
  counted-kept k ttl now s (t, none) ne h = h
  counted-kept k ttl now s (t, some n) ne h = elim (Bool-cases (n == 1)) [
    | inl first ↦ rw first (laws.expire_law k ttl now t (key_order_lock nsu) ne ∙ h)
    | inr more ↦ rw more h
  ]

  pub issue-kept :
      (command : Command) (now : Time) (s : r.State)
      → now < deadline
      → NotTheRelease nsu token command
      → LockedBy (key_order_lock nsu) token deadline (r.entries s)
      → LockedBy (key_order_lock nsu) token deadline (r.entries (issue r command now s))
  unfolding issue set_webhook_tx_seen set_webhook_hash_seen incr_checkout_by_ip
      incr_checkout_by_email_hash invalidate_order_status set_order_status acquire_order_lock
      release_order_lock acquire_fingerprint_lock release_fingerprint_lock
  issue-kept (marks_tx x) now s soon other e =
      Written-other _ _ _ _ _ _ (tx_apart nsu x) (laws.set_law (key_webhook_tx x) (lit "1") _ now s)
      ∙ e
  issue-kept (marks_hash x) now s soon other e =
      Written-other _ _ _ _ _ _ (hash_apart nsu x)
        (laws.set_law (key_webhook_hash x) (lit "1") _ now s)
      ∙ e
  issue-kept (counts_ip x) now s soon other e =
      counted-kept (key_rate_ip x) _ now s (r.incr (key_rate_ip x) now s) (ip_apart nsu x)
        (laws.incr_law (key_rate_ip x) now s (key_order_lock nsu) (ip_apart nsu x))
      ∙ e
  issue-kept (counts_email x) now s soon other e =
      counted-kept (key_rate_email x) _ now s (r.incr (key_rate_email x) now s) (email_apart nsu x)
        (laws.incr_law (key_rate_email x) now s (key_order_lock nsu) (email_apart nsu x))
      ∙ e
  issue-kept (invalidates x) now s soon other e =
      Written-other _ _ _ _ _ _ (status_apart nsu x) (laws.del_law (key_checkout_status x) now s)
      ∙ e
  issue-kept (caches_status x status) now s soon other e =
      Written-other _ _ _ _ _ _ (status_apart nsu x)
        (laws.set_law (key_checkout_status x) status _ now s)
      ∙ e
  issue-kept (acquires_order x t) now s soon other e =
      SetNx-live _ _ _ _ now _ _ _ (ap (live now) e ∙ ltb_of_lt now deadline soon)
        (laws.set_nx_law (key_order_lock x) t _ now s)
      ∙ e
  issue-kept (releases_order x t) now s soon other e =
      Ran-kept _ _ token t deadline now _ _ _ e (λ h. other (key_order_lock-injective x nsu h))
        (laws.script_law release_lock_script (key_order_lock x) t now s)
      ∙ e
  issue-kept (acquires_fingerprint x t) now s soon other e =
      SetNx-live _ _ _ _ now _ _ _ (ap (live now) e ∙ ltb_of_lt now deadline soon)
        (laws.set_nx_law (key_fingerprint_lock x) t _ now s)
      ∙ e
  issue-kept (releases_fingerprint x t) now s soon other e =
      Ran-kept _ _ token t deadline now _ _ _ e
        (λ h. absurd (ne_of_test _ _ (fingerprint_apart nsu x) (sym h)))
        (laws.script_law release_lock_script (key_fingerprint_lock x) t now s)
      ∙ e
