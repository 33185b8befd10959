-- ===== src/Leads/Service.antt =====
-- internal/leads/service.go, notifier.go and mongodb_repository.go. The unique indexes are those of
-- EnsureLeadsIndexes in internal/platform/mongodb/mongodb.go. The clock and the UUID are arguments.
use edn_core.Prelude.{
  ℕ, ltb, leb, Bool, true, false, not, ◌&&◌, Option, none, some, List, [], ◌∷◌, if◌then◌else◌,
}
use edn_core.Text.{Text, lit, ◌=?◌, is_empty, trim_space}
use edn_core.Checkout.{Time}
use edn_core.Mongo.{
  Collection, UniqueIndex, InsertOutcome, inserted, duplicate_key, insert_failed, Count, counted,
  count_failed,
}
use edn_core.Stored.Results.{bson_date, optional_date}
use edn_core.Leads.{SubmitRequest, byte_length}

pub record Lead : Type 0 where
  pub id : Text
  pub dedup_key : Text
  pub tenant_id : Text
  pub source : Text
  pub received_at : Time
  pub submitted_at : Option Time
  pub name : Text
  pub email : Text
  pub phone : Text
  pub business_name : Text
  pub profile : Text
  pub message : Text
  pub consent : Bool
  pub status : Text
  pub notification_status : Text
  pub notification_error : Text

abbrev pub leads_indexes : List (UniqueIndex Lead)
leads_indexes =
    record { fields = λ l. l.id ∷ []; holds_document = λ l. true }
    ∷ record { fields = λ l. l.dedup_key ∷ []; holds_document = λ l. true }
    ∷ record { fields = λ l. l.email ∷ []; holds_document = λ l. true }
    ∷ record { fields = λ l. l.phone ∷ []; holds_document = λ l. not (is_empty l.phone) }
    ∷ []

pub data LeadResult : Type 0 where
  submitted duplicate_lead lead_failed : LeadResult

abbrev pub save_result : InsertOutcome → LeadResult
save_result inserted = submitted
save_result duplicate_key = duplicate_lead
save_result insert_failed = lead_failed

abbrev pub has_email : Text → Lead → Bool
has_email email l = l.email =? email

-- A lead without a phone has no such field.
abbrev pub has_phone : Text → Lead → Bool
has_phone phone l = not (is_empty l.phone) && l.phone =? phone

-- The document of a lead.
abbrev pub as_stored : Lead → Lead
as_stored lead = record lead {
  received_at = bson_date lead.received_at;
  submitted_at = optional_date lead.submitted_at;
}

-- The settings that the service reads.
pub record LeadsConfig : Type 0 where
  pub tenant_id : Text
  pub notification_webhook_url : Text

abbrev enabled : LeadsConfig → Bool
enabled cfg = not (is_empty cfg.notification_webhook_url)

abbrev pub new_lead : LeadsConfig → SubmitRequest → Text → Time → Lead
new_lead cfg req uuid received_at = record {
  id = uuid;
  dedup_key = req.email;
  tenant_id = cfg.tenant_id;
  source = req.source;
  received_at = received_at;
  submitted_at = req.parsed_submitted_at;
  name = req.name;
  email = req.email;
  phone = req.phone;
  business_name = req.business_name;
  profile = req.profile;
  message = req.message;
  consent = req.consent;
  status = lit "new";
  notification_status = if enabled cfg then lit "pending" else lit "disabled";
  notification_error = [];
}

-- How a test for a lead that exists goes on.
abbrev pub unless_exists : {S : Type 0} → Count → S × LeadResult → S → S × LeadResult
unless_exists (counted n) next s = if ltb 0 n then (s, duplicate_lead) else next
unless_exists count_failed next s = (s, lead_failed)

module _ (c : Collection Lead) (cfg : LeadsConfig) where
  -- mongoRepository.Save
  unfoldable pub save : Lead → c.State → c.State × LeadResult
  save lead s = let (t, outcome) = c.insert_one (as_stored lead) s in (t, save_result outcome)

  -- ExistsByEmail and ExistsByPhone
  unfoldable exists_by_email : Text → c.State → Count
  exists_by_email email s = c.count_documents (has_email email) s

  unfoldable exists_by_phone : Text → c.State → Count
  exists_by_phone phone s = c.count_documents (has_phone phone) s

  -- Service.Submit up to the answer; the notification follows on its own
  unfoldable pub submit : SubmitRequest → Text → Time → c.State → c.State × LeadResult
  unfolding save exists_by_email exists_by_phone
  submit req uuid received_at s =
      let saved = save (new_lead cfg req uuid received_at) s in
      let checked =
        if is_empty req.phone then saved else unless_exists (exists_by_phone req.phone s) saved s in
      unless_exists (exists_by_email req.email s) checked s

-- WebhookNotifier.Notify: delivered if the webhook answers with a success
abbrev notified : Option ℕ → Bool
notified none = false
notified (some status) = leb 200 status && ltb status 300

-- truncateNotificationError; the slice of the first 255 bytes, which may end inside a character, is an
-- argument
unfoldable truncate_notification_error : (Text → Text) → Text → Text
unfolding trim_space byte_length
truncate_notification_error first_bytes detail =
    let trimmed = trim_space detail in
    if leb (byte_length trimmed) 255 then trimmed else first_bytes trimmed

abbrev notification_update : (Text → Text) → Text → Text → Lead → Lead
notification_update first_bytes status detail l =
    if is_empty detail
    then record l { notification_status = status; notification_error = [] }
    else record l {
      notification_status = status;
      notification_error = truncate_notification_error first_bytes detail;
    }

module _ (c : Collection Lead) (first_bytes : Text → Text) where
  -- UpdateNotificationStatus; a failure is logged only, and no match is none
  unfoldable update_notification_status : Text → Text → Text → c.State → c.State
  update_notification_status id status detail s =
      (c.update_one (λ l. l.id =? id) (notification_update first_bytes status detail) s).0

  -- Service.notifyLead, with the answer of the webhook and the message of its error
  unfoldable notify_lead : Lead → Option ℕ → Text → c.State → c.State
  unfolding update_notification_status
  notify_lead lead answer message =
      if notified answer
      then update_notification_status lead.id (lit "sent") []
      else update_notification_status lead.id (lit "failed") message
