-- ===== src/Stored/Subscriptions.antt =====
-- internal/checkout/mongodb_repository.go: the subscriptions. None of the indexes that
-- ensureSubscriptionsIndexes creates is unique.
use edn_core.Prelude.{Bool, List}
use edn_core.Text.{Text, ◌=?◌}
use edn_core.Checkout.{Time, Subscription, SubscriptionStatus, active}
use edn_core.Errors.{sentinel, wrapped, other, Result, subscription_not_found}
use edn_core.Mongo.{Collection}
use edn_core.Stored.Results.{
  bson_date, insert_result, find_result, find_all_result, update_result, with_result,
}

abbrev has_origin : Text → Subscription → Bool
has_origin order_nsu s = s.origin_order_nsu =? order_nsu

-- The document of a subscription.
abbrev as_stored : Subscription → Subscription
as_stored sub = record sub {
  starts_at = bson_date sub.starts_at;
  ends_at = bson_date sub.ends_at;
  created_at = bson_date sub.created_at;
  updated_at = bson_date sub.updated_at;
}

abbrev pub activated : Time → Time → Time → Subscription → Subscription
activated from until at s = record s {
  status = active;
  starts_at = bson_date from;
  ends_at = bson_date until;
  updated_at = bson_date at;
}

module _ (c : Collection Subscription) where
  -- mongoSubscriptions.Create: a duplicate key has no error of its own
  unfoldable pub create : Subscription → c.State → c.State × Result (Unit {0})
  create sub s = with_result (insert_result (wrapped other)) (c.insert_one (as_stored sub) s)

  -- FindByOriginOrderNSU and FindByEmail
  unfoldable find_by_origin_order_nsu : Text → c.State → Result Subscription
  find_by_origin_order_nsu order_nsu s =
      find_result subscription_not_found (c.find_one (has_origin order_nsu) s)

  unfoldable find_by_email : Text → c.State → Result (List Subscription)
  find_by_email email s = find_all_result (c.find (λ sub. sub.customer_email =? email) s)

  -- Activate
  unfoldable pub activate : Text → Time → Time → Time → c.State → c.State × Result (Unit {0})
  activate order_nsu from until at s =
      with_result (update_result (sentinel subscription_not_found))
        (c.update_one (has_origin order_nsu) (activated from until at) s)

  -- UpdateStatus
  unfoldable pub update_status :
      Text → SubscriptionStatus → Time → c.State → c.State × Result (Unit {0})
  update_status id status at s = with_result (update_result (sentinel subscription_not_found)) (
      c.update_one (λ sub. sub.subscription_id =? id)
        (λ sub. record sub { status = status; updated_at = bson_date at }) s)
