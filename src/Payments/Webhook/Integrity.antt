-- ===== src/Payments/Webhook/Integrity.antt =====
-- What a webhook may change, and what its success means.
use edn_core.Prelude.{
  refl, sym, inl, inr, any, subst, ◌≡◌, Bool, true, false, Option, none, some, List, [], ◌∷◌, ◌++◌,
  or_left, any, arith, if◌then◌else◌,
}
use edn_core.Text.{Text, ◌=?◌}
use edn_core.Text.Laws.{test-same}
use edn_core.Checkout.{Time, Order, Payment, WebhookEvent}
use edn_core.Errors.{ok, err}
use edn_core.Runtime.{Runtime}
use edn_core.Payments.{InfinitePayVerifyResponse}
use edn_core.Payments.Webhook.{
  Inbound, is_processed, apply_verified, record_and_apply, verify_and_apply, handle_locked,
  lock_and_handle, dedup_and_handle, handle_payload, handle, was_seen,
  select_webhook_event_for_processing, select_unprocessed, or_else,
}
use edn_core.Effects.{
  ◌>>=◌, success, ask, attempt, find_by_transaction_nsu, release_order_lock, deferring,
}
use edn_core.Effects.Run.{Environment, run}
use edn_core.Effects.Monitor.{Allowed, Trusted, Spec, Spec-sound, Spec-bind, Stays, state}
use edn_core.Payments.Monitors.{no_locks, lock_guard}
use edn_core.Payments.Webhook.Known.{is_known, ids_of, selected-is_known, chosen-is_known}
use edn_core.Payments.Webhook.Guard.{Reconciliation, Consistent, webhook_guard, Settled, is_among}

module _ (rt : Runtime) where
  -- The state at the gates, once they are passed.
  abbrev gated :
      Text
      → List Text
      → Order
      → InfinitePayVerifyResponse
      → Option (List Payment)
      → Bool
      → Bool
      → Reconciliation
  gated transaction ids order verified stored processed duplicate = record {
    transaction = some transaction;
    event_ids = ids;
    order = some order;
    verified = some verified;
    stored = stored;
    payment = none;
    status = none;
    enqueued = false;
    processed = processed;
    duplicate = duplicate;
  }

  apply_verified-Settled :
      (w : Inbound) (order : Order) (verified : InfinitePayVerifyResponse)
      (stored : Option (List Payment)) (event : WebhookEvent) (now : Time) (ids : List Text)
      (p d : Bool)
      → p ≡ false
      → is_among event.event_id ids ≡ true
      → order.order_nsu ≡ w.minimal.order_nsu
      → verified.paid_amount_cents ≡ order.amount_cents
      → Consistent stored verified
      → Spec webhook_guard Settled
          (gated w.minimal.transaction_nsu ids order verified stored p d)
          (apply_verified rt w order verified event now)
  unfolding apply_verified
  apply_verified-Settled w order verified stored event now ids p d hp known same amount consistent =
      ground arith

  record_and_apply-Settled :
      (w : Inbound) (order : Order) (verified : InfinitePayVerifyResponse)
      (stored : Option (List Payment)) (known : Option WebhookEvent) (ids : List Text) (p d : Bool)
      → p ≡ false
      → is_known known ids ≡ true
      → order.order_nsu ≡ w.minimal.order_nsu
      → verified.paid_amount_cents ≡ order.amount_cents
      → Consistent stored verified
      → Spec webhook_guard Settled
          (gated w.minimal.transaction_nsu ids order verified stored p d)
          (record_and_apply rt w order verified known)
  unfolding record_and_apply
  record_and_apply-Settled w order verified stored (some event) ids p d hp known same amount
        consistent =
      (
        tt,
        λ now _.
            apply_verified-Settled w order verified stored event now ids p d hp known same amount
              consistent,
      )
  record_and_apply-Settled w order verified stored none ids p d hp known same amount consistent = (
    tt,
    λ now _. (
      tt,
      λ event_id _. (
        (hp, sym same, refl),
        elim [
          | ok _ ↦ λ _.
              apply_verified-Settled w order verified stored _ now (event_id ∷ ids) p d hp
                (or_left (event_id =? event_id) _ (test-same event_id)) same amount consistent
          | err e ↦ λ _. ground arith
        ],
      ),
    ),
  )

  abbrev unverified : Option Text → List Text → Bool → Bool → Reconciliation
  unverified transaction ids p d = record webhook_guard.start {
    transaction = transaction;
    event_ids = ids;
    processed = p;
    duplicate = d;
  }

  verify_and_apply-Settled :
      (w : Inbound) (known : Option WebhookEvent) (ids : List Text) (p d : Bool)
      → p ≡ false
      → is_known known ids ≡ true
      → Spec webhook_guard Settled
          (unverified (some w.minimal.transaction_nsu) ids p d)
          (verify_and_apply rt w known)
  unfolding verify_and_apply
  verify_and_apply-Settled w known ids p d hp old = grind (arith, record_and_apply-Settled)

  handle_locked-Settled :
      (w : Inbound) (known : Option WebhookEvent) (t : Option Text) (ids : List Text) (p d : Bool)
      → p ≡ false
      → is_known known ids ≡ true
      → Spec webhook_guard Settled (unverified t ids p d) (handle_locked rt w known)
  unfolding handle_locked
  handle_locked-Settled w known t ids p d hp old = (
    tt,
    elim [
      | ok found ↦ λ _. after_lookup (any is_processed found) found
      | err _ ↦ λ _. verify_and_apply-Settled w known ids p d hp old
    ],
  )
    where
      after_lookup :
          (b : Bool) (found : List WebhookEvent)
          → Spec webhook_guard Settled
              (unverified (some w.minimal.transaction_nsu) (ids_of found ++ ids) b d)
              (if b
                then success tt
                else verify_and_apply rt w (or_else (select_unprocessed found) known))
      after_lookup true found = inr (inl refl)
      after_lookup false found =
          verify_and_apply-Settled w (or_else (select_unprocessed found) known)
            (ids_of found ++ ids) false d refl (selected-is_known known found ids old)

  under_lock-Settled :
      (w : Inbound) (token : Text) (known : Option WebhookEvent) (t : Option Text) (ids : List Text)
      (p d : Bool)
      → p ≡ false
      → is_known known ids ≡ true
      → Spec webhook_guard Settled
          (unverified t ids p d)
          (deferring (release_order_lock w.minimal.order_nsu token) (handle_locked rt w known))
  under_lock-Settled w token known t ids p d hp old =
      Spec-bind webhook_guard Settled Settled (unverified t ids p d) (handle_locked rt w known) _
        (handle_locked-Settled w known t ids p d hp old) (λ s r settled. (tt, λ _ _. settled))

  lock_and_handle-Settled :
      (w : Inbound) (known : Option WebhookEvent) (t : Option Text) (ids : List Text) (p d : Bool)
      → p ≡ false
      → is_known known ids ≡ true
      → Spec webhook_guard Settled (unverified t ids p d) (lock_and_handle rt w known)
  unfolding lock_and_handle
  lock_and_handle-Settled w known t ids p d hp old = (
    tt,
    λ token _. (
      tt,
      elim [ ok _ ↦ λ _. under_lock-Settled w token known t ids p d hp old | err e ↦ λ _. tt ],
    ),
  )

  -- What step 2 does with the events that it has found.
  chosen-Settled :
      (w : Inbound) (t : Option Text) (ids : List Text) (processed : Bool)
      (chosen : Option WebhookEvent)
      → is_known chosen ids ≡ true
      → Spec webhook_guard Settled
          (unverified t ids processed false)
          (if processed then success tt else lock_and_handle rt w chosen)
  chosen-Settled w t ids true chosen old = inr (inl refl)
  chosen-Settled w t ids false chosen old =
      lock_and_handle-Settled w chosen t ids false false refl old

  select-processed :
      (found : List WebhookEvent)
      → (select_webhook_event_for_processing found).0 ≡ any is_processed found
  unfolding select_webhook_event_for_processing
  select-processed found = ground arith

  found-Settled :
      (w : Inbound) (found : List WebhookEvent)
      → Spec webhook_guard Settled
          (unverified
            (some w.minimal.transaction_nsu)
            (ids_of found ++ [])
            (any is_processed found)
            false)
          (if (select_webhook_event_for_processing found).0
            then success tt
            else lock_and_handle rt w (select_webhook_event_for_processing found).1)
  found-Settled w found =
      subst
        (λ p.
          Spec webhook_guard Settled
            (unverified (some w.minimal.transaction_nsu) (ids_of found ++ []) p false)
            (if (select_webhook_event_for_processing found).0
              then success tt
              else lock_and_handle rt w (select_webhook_event_for_processing found).1))
        (select-processed found)
        (chosen-Settled w (some w.minimal.transaction_nsu) (ids_of found ++ [])
          (select_webhook_event_for_processing found).0
          (select_webhook_event_for_processing found).1 (chosen-is_known found))

  seen-Settled :
      (w : Inbound) (seen : Bool)
      → Spec webhook_guard Settled webhook_guard.start (
          if seen
          then (do
            events ← attempt (ask (find_by_transaction_nsu w.minimal.transaction_nsu))
            elim events [
              | err _ ↦ lock_and_handle rt w none
              | ok found ↦
                  let (processed, existing) = select_webhook_event_for_processing found in
                  if processed then success tt else lock_and_handle rt w existing
            ])
          else lock_and_handle rt w none)
  seen-Settled w true = (
    tt,
    elim [
      | ok found ↦ λ _. found-Settled w found
      | err _ ↦ λ _.
          lock_and_handle-Settled w none (some w.minimal.transaction_nsu) [] false false refl refl
    ],
  )
  seen-Settled w false = lock_and_handle-Settled w none none [] false false refl refl

  dedup_and_handle-Settled :
      (w : Inbound) → Spec webhook_guard Settled webhook_guard.start (dedup_and_handle rt w)
  unfolding dedup_and_handle
  dedup_and_handle-Settled w = (tt, λ r _. seen-Settled w (was_seen rt r))

  pub handle-Settled :
      (raw_body : Text) → Spec webhook_guard Settled webhook_guard.start (handle rt raw_body)
  unfolding handle handle_payload
  handle-Settled raw_body = grind (arith, dedup_and_handle-Settled)

  handle-locked :
      (raw_body : Text) → Spec lock_guard (Stays lock_guard no_locks) no_locks (handle rt raw_body)
  unfolding handle handle_payload dedup_and_handle lock_and_handle handle_locked verify_and_apply
      record_and_apply apply_verified
  handle-locked raw_body = ground arith

module _ (rt : Runtime) (env : Environment) (raw_body : Text) where
  -- If the order repository returns the order that it is asked for, every run of the webhook
  -- service writes payments and the order under the order's lock, releases exactly the lock that it
  -- took, and holds no lock at the end.
  pub handle-locks :
      Trusted lock_guard env
      → Allowed lock_guard (run env [] (handle rt raw_body)).0
        × (state lock_guard (run env [] (handle rt raw_body)).0 ≡ no_locks)
  handle-locks trusted =
      Spec-sound lock_guard (Stays lock_guard no_locks) env [] _ trusted tt
        (handle-locked rt raw_body)
