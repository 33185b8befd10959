-- ===== src/Leads/Capture.antt =====
-- What an answer of the endpoint means for the store.
use edn_core.Prelude.{
  ℕ, zero, suc, ltb, ◌≡◌, refl, ◌⊎◌, inl, inr, Bool, true, false, not, Option, none, some, List,
  ◌∷◌, any, arith, if◌then◌else◌,
}
use edn_core.Text.{Text, is_empty}
use edn_core.Checkout.{Time}
use edn_core.Mongo.{
  Collection, CollectionLaws, clashes, InsertOutcome, Inserted, inserted, duplicate_key,
  insert_failed, Count, counted, count_failed, Counted,
}
use edn_core.Leads.{SubmitRequest, Validation, valid, invalid, validate}
use edn_core.Leads.Valid.{Normal, validate-Normal}
use edn_core.Leads.Service.{
  Lead, LeadsConfig, LeadResult, submitted, duplicate_lead, lead_failed, leads_indexes, as_stored,
  has_email, has_phone, new_lead, save_result, save, unless_exists, submit,
}
use edn_core.Leads.Handler.{authenticate, service_status, serve_valid, serve_decoded, serve_lead}

ltb_zero_suc : (n : ℕ) → ltb 0 (suc n) ≡ true
ltb_zero_suc n = ground arith

-- By the result: the lead was stored, or one that it duplicates is there, or an error left it open.
abbrev Submitted : Lead → List Lead → LeadResult → List Lead → Type 0
Submitted lead ls submitted ls' =
    (clashes leads_indexes lead ls ≡ false) × (ls' ≡ as_stored lead ∷ ls)
Submitted lead ls duplicate_lead ls' =
    (ls' ≡ ls)
    × ((any (has_email lead.email) ls ≡ true)
        ⊎ ((any (has_phone lead.phone) ls ≡ true) ⊎ (clashes leads_indexes lead ls ≡ true)))
Submitted lead ls lead_failed ls' =
    (ls' ≡ ls) ⊎ ((clashes leads_indexes lead ls ≡ false) × (ls' ≡ as_stored lead ∷ ls))

module _ (c : Collection Lead) (laws : CollectionLaws leads_indexes c) (cfg : LeadsConfig) where
  saved :
      (lead : Lead) (s : c.State)
      → Submitted lead (c.docs s) (save c cfg lead s).1 (c.docs (save c cfg lead s).0)
  unfolding save
  saved lead s = go (c.insert_one (as_stored lead) s).1 (laws.insert_law (as_stored lead) s)
    where
      go :
          (o : InsertOutcome)
          → Inserted leads_indexes
              (as_stored lead)
              (c.docs s)
              o
              (c.docs (c.insert_one (as_stored lead) s).0)
          → Submitted lead (c.docs s) (save_result o) (c.docs (c.insert_one (as_stored lead) s).0)
      go inserted h = h
      go duplicate_key (clash, e) = (e, inr (inr clash))
      go insert_failed h = h

  -- A test before it.
  tested :
      (lead : Lead) (s : c.State) (p : Lead → Bool) (next : c.State × LeadResult) (n : Count)
      → (any p (c.docs s) ≡ true
          → (any (has_email lead.email) (c.docs s) ≡ true)
            ⊎ ((any (has_phone lead.phone) (c.docs s) ≡ true)
                ⊎ (clashes leads_indexes lead (c.docs s) ≡ true)))
      → Counted p (c.docs s) n
      → Submitted lead (c.docs s) next.1 (c.docs next.0)
      → Submitted lead (c.docs s) (unless_exists n next s).1 (c.docs (unless_exists n next s).0)
  tested lead s p next (counted zero) why h go = go
  tested lead s p next (counted (suc n)) why h go = rw (ltb_zero_suc n) (refl, why h)
  tested lead s p next count_failed why h go = inl refl

  submit-Submitted :
      (req : SubmitRequest) (uuid : Text) (now : Time) (s : c.State)
      → Submitted
          (new_lead cfg req uuid now)
          (c.docs s)
          (submit c cfg req uuid now s).1
          (c.docs (submit c cfg req uuid now s).0)
  unfolding submit
  submit-Submitted req uuid now s =
      tested lead s (has_email req.email) _ (c.count_documents (has_email req.email) s) (λ h. inl h)
        (laws.count_law (has_email req.email) s) (go (is_empty req.phone))
    where
      lead : Lead
      lead = new_lead cfg req uuid now

      first : c.State × LeadResult
      first = save c cfg lead s

      checked : Bool → c.State × LeadResult
      checked b =
          if b then first else unless_exists (c.count_documents (has_phone req.phone) s) first s

      go : (b : Bool) → Submitted lead (c.docs s) (checked b).1 (c.docs (checked b).0)
      go true = saved lead s
      go false =
          tested lead s (has_phone req.phone) first (c.count_documents (has_phone req.phone) s)
            (λ h. inr (inl h)) (laws.count_law (has_phone req.phone) s) (saved lead s)

module _ (c : Collection Lead) (laws : CollectionLaws leads_indexes c) (cfg : LeadsConfig)
    (auth_token : Text) (parse_time : Text → Option Time) (uuid : Text) (now : Time) where
  -- A lead that was accepted: the request was valid and is normalized, and the store has got exactly the
  -- lead of it, its times in milliseconds, which no other one clashes with.
  abbrev Captured : Option SubmitRequest → c.State → c.State → Type 0
  Captured decoded s t =
      (req : SubmitRequest) × (normalized : SubmitRequest) × (decoded ≡ some req)
      × (validate parse_time req ≡ valid normalized)
      × Normal normalized
      × (clashes leads_indexes (new_lead cfg normalized uuid now) (c.docs s) ≡ false)
      × (c.docs t ≡ as_stored (new_lead cfg normalized uuid now) ∷ c.docs s)

  -- A lead with the email or the phone of the request, or with a key of its lead.
  abbrev Duplicated : Option SubmitRequest → c.State → Type 0
  Duplicated decoded s =
      (req : SubmitRequest) × (normalized : SubmitRequest) × (decoded ≡ some req)
      × (validate parse_time req ≡ valid normalized)
      × ((any (has_email normalized.email) (c.docs s) ≡ true)
          ⊎ ((any (has_phone normalized.phone) (c.docs s) ≡ true)
              ⊎ (clashes leads_indexes (new_lead cfg normalized uuid now) (c.docs s) ≡ true)))

  abbrev pub Answered : Text → Option SubmitRequest → c.State → c.State → ℕ → Type 0
  Answered got decoded s t status =
      ((status ≡ 200) × (authenticate auth_token got ≡ true) × Captured decoded s t)
      ⊎ (((status ≡ 409) × (c.docs t ≡ c.docs s) × Duplicated decoded s)
          ⊎ (((status ≡ 400) × (c.docs t ≡ c.docs s))
              ⊎ (((status ≡ 401) × (c.docs t ≡ c.docs s) × (authenticate auth_token got ≡ false))
                  ⊎ ((status ≡ 500) × ((c.docs t ≡ c.docs s) ⊎ Captured decoded s t)))))

  valid-Answered :
      (got : Text) (req normalized : SubmitRequest) (s : c.State)
      → authenticate auth_token got ≡ true
      → validate parse_time req ≡ valid normalized
      → (run : c.State × LeadResult)
      → Submitted (new_lead cfg normalized uuid now) (c.docs s) run.1 (c.docs run.0)
      → Answered got (some req) s run.0 (service_status run.1)
  valid-Answered got req normalized s auth e (t, submitted) (fresh, new) = inl (
    refl,
    auth,
    (req, normalized, refl, e, validate-Normal parse_time req normalized e, fresh, new),
  )
  valid-Answered got req normalized s auth e (t, duplicate_lead) (same, why) =
      inr (inl (refl, same, (req, normalized, refl, e, why)))
  valid-Answered got req normalized s auth e (t, lead_failed) (inl same) =
      inr (inr (inr (inr (refl, inl same))))
  valid-Answered got req normalized s auth e (t, lead_failed) (inr (fresh, new)) = inr (
      inr (
        inr (
          inr (
            refl,
            inr (req, normalized, refl, e, validate-Normal parse_time req normalized e, fresh, new),
          ))))

  decoded-Answered :
      (got : Text) (decoded : Option SubmitRequest) (s : c.State)
      → authenticate auth_token got ≡ true
      → Answered got decoded s
          (serve_decoded c cfg auth_token parse_time uuid now decoded s).0
          (serve_decoded c cfg auth_token parse_time uuid now decoded s).1
  decoded-Answered got none s auth = inr (inr (inl (refl, refl)))
  decoded-Answered got (some req) s auth = go (validate parse_time req) refl
    where
      go :
          (v : Validation)
          → validate parse_time req ≡ v
          → Answered got
              (some req)
              s
              (serve_valid c cfg auth_token parse_time uuid now v s).0
              (serve_valid c cfg auth_token parse_time uuid now v s).1
      go (invalid details) e = inr (inr (inl (refl, refl)))
      go (valid normalized) e =
          valid-Answered got req normalized s auth e (submit c cfg normalized uuid now s)
            (submit-Submitted c laws cfg normalized uuid now s)

  -- Each answer of the endpoint for leads: 200 only to a request with the configured token and a body
  -- that is valid, and then the store has got the lead of the normalized request, its times in
  -- milliseconds, and nothing else;
  -- 409 only to a valid request whose email, phone or another key is taken, 400, and 401 only without
  -- the token, all three leaving the store as it is; 500, and the store is as it was or has got the lead.
  pub serve_lead-Answered :
      (got : Text) (is_json : Bool) (decoded : Option SubmitRequest) (s : c.State)
      → Answered got decoded s
          (serve_lead c cfg auth_token parse_time uuid now got is_json decoded s).0
          (serve_lead c cfg auth_token parse_time uuid now got is_json decoded s).1
  unfolding serve_lead
  serve_lead-Answered got is_json decoded s = go (authenticate auth_token got) refl is_json
    where
      go :
          (auth : Bool)
          → authenticate auth_token got ≡ auth
          → (json : Bool)
          → Answered got decoded s
              (if not auth
                then (s, 401)
                else if not json
                then (s, 400)
                else serve_decoded c cfg auth_token parse_time uuid now decoded s).0
              (if not auth
                then (s, 401)
                else if not json
                then (s, 400)
                else serve_decoded c cfg auth_token parse_time uuid now decoded s).1
      go false e json = inr (inr (inr (inl (refl, refl, e))))
      go true e false = inr (inr (inl (refl, refl)))
      go true e true = decoded-Answered got decoded s e
