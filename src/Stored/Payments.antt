-- ===== src/Stored/Payments.antt =====
-- internal/checkout/mongodb_repository.go: the payments. Their unique index is that of
-- ensurePaymentsIndexes in internal/platform/mongodb/checkout.go.
pub mod Upserting
use edn_core.Prelude.{zero, suc, Bool, true, List, [], ◌∷◌}
use edn_core.Text.{Text, ◌=?◌}
use edn_core.Checkout.{Time, Payment, PaymentStatus}
use edn_core.Errors.{sentinel, wrapped, other, Result, ok, err, payment_not_found}
use edn_core.Mongo.{Collection, UniqueIndex, UpdateOutcome, matched, update_failed}
use edn_core.Stored.Results.{bson_date, find_result, find_all_result, update_result, with_result}

abbrev pub payments_indexes : List (UniqueIndex Payment)
payments_indexes = record { fields = λ p. p.transaction_nsu ∷ []; holds_document = λ p. true } ∷ []

abbrev pub has_transaction : Text → Payment → Bool
has_transaction transaction_nsu p = p.transaction_nsu =? transaction_nsu

-- The document of a payment.
abbrev pub as_stored : Payment → Payment
as_stored payment = record payment {
  created_at = bson_date payment.created_at;
  updated_at = bson_date payment.updated_at;
}

-- `$set` of all fields but the key and `created_at`, which `$setOnInsert` sets
abbrev pub with_payment : Payment → Payment → Payment
with_payment payment p = record payment {
  transaction_nsu = p.transaction_nsu;
  created_at = p.created_at;
}

-- An upsert succeeds whether it matched or inserted.
abbrev pub upsert_result : UpdateOutcome → Result (Unit {0})
upsert_result (matched _) = ok tt
upsert_result update_failed = err (wrapped other)

module _ (c : Collection Payment) where
  -- mongoPayments.Upsert
  unfoldable pub upsert : Payment → c.State → c.State × Result (Unit {0})
  upsert payment s = with_result upsert_result (
      c.upsert_one (has_transaction payment.transaction_nsu) (with_payment (as_stored payment))
        (as_stored payment) s)

  -- FindByTransactionNSU
  unfoldable pub find_by_transaction_nsu : Text → c.State → Result Payment
  find_by_transaction_nsu transaction_nsu s =
      find_result payment_not_found (c.find_one (has_transaction transaction_nsu) s)

  -- FindByOrderNSU
  unfoldable find_by_order_nsu : Text → c.State → Result (List Payment)
  find_by_order_nsu order_nsu s = find_all_result (c.find (λ p. p.order_nsu =? order_nsu) s)

  -- UpdateStatus
  unfoldable pub update_status : Text → PaymentStatus → Time → c.State → c.State × Result (Unit {0})
  update_status transaction_nsu status updated_at s =
      with_result (update_result (sentinel payment_not_found)) (
        c.update_one (has_transaction transaction_nsu)
          (λ p. record p { status = status; updated_at = bson_date updated_at }) s)
