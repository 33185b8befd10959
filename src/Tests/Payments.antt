-- ===== src/Tests/Payments.antt =====
-- The theorems on the payment services, in the concrete world.
use edn_core.Prelude.{ℕ, ◌≡◌, true, some, none, [], ◌∷◌}
use edn_core.Text.{Text, lit}
use edn_core.Checkout.{WebhookEvent, PaymentStatus}
use edn_core.Errors.{err, continuation, sentinel, provider_state_ambiguous}
use edn_core.Payments.Http.Errors.{Answered, create_answer-Answered}
use edn_core.Effects.Run.{run}
use edn_core.Effects.Monitor.{Allowed, state}
use edn_core.Payments.Create.{create_session, create_new_session}
use edn_core.Payments.Create.Safety.{create_session-provider_once, create_session-lock_balance}
use edn_core.Payments.Create.Pricing.{Concluded, sale_guard, create_new_session-charges_plan}
use edn_core.Payments.Resume.{resume_session}
use edn_core.Payments.Resume.Safety.{
  recovery_guard, Durable, resume_session-provider_once, resume_session-locked,
  resume_session-justified,
}
use edn_core.Payments.Webhook.{handle, select_webhook_event_for_processing}
use edn_core.Payments.Webhook.Integrity.{handle-locks}
use edn_core.Payments.Webhook.Selection.{Selected, select_webhook_event_for_processing-Selected}
use edn_core.Payments.Worker.{activate, dispatch}
use edn_core.Payments.Worker.Activating.{activation_guard, Activated, activate-justified}
use edn_core.Payments.Worker.Dispatching.{outbox_guard, Delivered, dispatch-delivers}
use edn_core.Payments.Status.{track_by_intent_key}
use edn_core.Payments.Status.Safety.{tracking_guard, Tracked, track_by_intent_key-shows}
use edn_core.Payments.Http.{create_answer, WebhookRequest, track_checkout_session}
use edn_core.Payments.Http.Safety.{track_checkout_session-once}
use edn_core.Payments.Monitors.{provider_guard, lock_balance, lock_guard, no_locks}
use edn_core.Tests.World.{library, config, request, approved_event, world, world-Fetched}

create_session-provider_once_example :
    Allowed provider_guard (run world [] (create_session config library request)).0
create_session-provider_once_example = create_session-provider_once config library world request

create_session-lock_balance_example :
    Allowed lock_balance (run world [] (create_session config library request)).0
    × (state lock_balance (run world [] (create_session config library request)).0 ≡ no_locks)
create_session-lock_balance_example =
    create_session-lock_balance config library world request world-Fetched

create_new_session-charges_plan_example :
    Allowed sale_guard (run world [] (create_new_session config library request (lit "k1"))).0
    × Concluded
        (state sale_guard (run world [] (create_new_session config library request (lit "k1"))).0)
        (run world [] (create_new_session config library request (lit "k1"))).1
create_new_session-charges_plan_example =
    create_new_session-charges_plan config library request (lit "k1") world

resume_session-provider_once_example :
    Allowed provider_guard (run world [] (resume_session config (lit "i1"))).0
resume_session-provider_once_example = resume_session-provider_once config world (lit "i1")

resume_session-locked_example :
    Allowed lock_guard (run world [] (resume_session config (lit "i1"))).0
    × (state lock_guard (run world [] (resume_session config (lit "i1"))).0 ≡ no_locks)
resume_session-locked_example = resume_session-locked config world (lit "i1") world-Fetched

resume_session-justified_example :
    Allowed recovery_guard (run world [] (resume_session config (lit "i1"))).0
    × Durable
        (state recovery_guard (run world [] (resume_session config (lit "i1"))).0)
        (run world [] (resume_session config (lit "i1"))).1
resume_session-justified_example = resume_session-justified config world (lit "i1") world-Fetched

handle-locks_example :
    Allowed lock_guard (run world [] (handle library (lit "{}"))).0
    × (state lock_guard (run world [] (handle library (lit "{}"))).0 ≡ no_locks)
handle-locks_example = handle-locks library world (lit "{}") world-Fetched

abbrev post : WebhookRequest
post = record {
  is_post = true;
  internal_token = lit "s3cret";
  is_json = true;
  raw_body = some (lit "{}");
}

track_checkout_session-once_example :
    Allowed provider_guard (run world [] (track_checkout_session config (some (lit "i1")))).0
    × Allowed lock_balance (run world [] (track_checkout_session config (some (lit "i1")))).0
    × (state lock_balance (run world [] (track_checkout_session config (some (lit "i1")))).0
        ≡ no_locks)
track_checkout_session-once_example =
    track_checkout_session-once config world (some (lit "i1")) world-Fetched

track_by_intent_key-shows_example :
    Allowed tracking_guard (run world [] (track_by_intent_key (lit "i1"))).0
    × Tracked
        (lit "i1")
        (state tracking_guard (run world [] (track_by_intent_key (lit "i1"))).0)
        (run world [] (track_by_intent_key (lit "i1"))).1
track_by_intent_key-shows_example = track_by_intent_key-shows world (lit "i1") world-Fetched

dispatch-delivers_example :
    Allowed (outbox_guard library) (run world [] (dispatch library 10)).0
    × Delivered
        (state (outbox_guard library) (run world [] (dispatch library 10)).0)
        (run world [] (dispatch library 10)).1
dispatch-delivers_example = dispatch-delivers library world 10

activate-justified_example :
    Allowed
      (activation_guard library approved_event)
      (run world [] (activate library approved_event)).0
    × Activated
        (state
          (activation_guard library approved_event)
          (run world [] (activate library approved_event)).0)
        (run world [] (activate library approved_event)).1
activate-justified_example = activate-justified library world approved_event world-Fetched

abbrev event_at : Text → (t : ℕ) → WebhookEvent
event_at id t = record {
  event_id = id;
  provider = lit "infinitepay";
  event_hash = lit "h";
  order_nsu = lit "o1";
  transaction_nsu = lit "t1";
  status = PaymentStatus.pending;
  raw_payload = lit "{}";
  received_at = t;
  processed_at = none;
}

select_webhook_event_for_processing-Selected_example :
    Selected
      (event_at (lit "b") 7 ∷ event_at (lit "a") 5 ∷ [])
      (select_webhook_event_for_processing (event_at (lit "b") 7 ∷ event_at (lit "a") 5 ∷ []))
select_webhook_event_for_processing-Selected_example =
    select_webhook_event_for_processing-Selected (event_at (lit "b") 7 ∷ event_at (lit "a") 5 ∷ [])

create_answer-Answered_example :
    Answered
      (err (continuation (sentinel provider_state_ambiguous) (lit "o1") (lit "i1")))
      (create_answer (err (continuation (sentinel provider_state_ambiguous) (lit "o1") (lit "i1"))))
create_answer-Answered_example =
    create_answer-Answered
      (err (continuation (sentinel provider_state_ambiguous) (lit "o1") (lit "i1")))
