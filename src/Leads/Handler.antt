-- ===== src/Leads/Handler.antt =====
-- internal/leads/handler.go: from the request to the answer. What decoding the body gives is an argument:
-- the request, or a refusal (too large, unknown fields, more than one object).
use edn_core.Prelude.{ℕ, Bool, false, not, ◌||◌, Option, none, some, if◌then◌else◌}
use edn_core.Text.{Text, ◌=?◌, is_empty}
use edn_core.Checkout.{Time}
use edn_core.Mongo.{Collection}
use edn_core.Leads.{SubmitRequest, Validation, valid, invalid, validate}
use edn_core.Leads.Service.{
  Lead, LeadsConfig, LeadResult, submitted, duplicate_lead, lead_failed, submit,
}

-- authenticate: the configured token, in the header that it is configured for
abbrev pub authenticate : Text → Text → Bool
authenticate auth_token got =
    if is_empty auth_token || is_empty got then false else got =? auth_token

-- handleServiceError, and the success
abbrev pub service_status : LeadResult → ℕ
service_status submitted = 200
service_status duplicate_lead = 409
service_status lead_failed = 500

module _ (c : Collection Lead) (cfg : LeadsConfig) (auth_token : Text)
    (parse_time : Text → Option Time) (uuid : Text) (now : Time) where
  abbrev pub with_status : c.State × LeadResult → c.State × ℕ
  with_status (t, result) = (t, service_status result)

  abbrev pub serve_valid : Validation → c.State → c.State × ℕ
  serve_valid (invalid details) s = (s, 400)
  serve_valid (valid req) s = with_status (submit c cfg req uuid now s)

  abbrev pub serve_decoded : Option SubmitRequest → c.State → c.State × ℕ
  serve_decoded none s = (s, 400)
  serve_decoded (some req) s = serve_valid (validate parse_time req) s

  -- Handler.ServeHTTP, with the value of the authentication header and whether the content type is JSON
  unfoldable pub serve_lead : Text → Bool → Option SubmitRequest → c.State → c.State × ℕ
  unfolding validate submit
  serve_lead got is_json decoded s =
      if not (authenticate auth_token got)
      then (s, 401)
      else if not is_json
      then (s, 400)
      else serve_decoded decoded s
