-- ===== src/CheckoutStore/Entries.antt =====
-- What the commands of the client do to an entry under another key, or with another token.
use edn_core.Prelude.{
  ℕ, ◌<◌, ltb, ◌≡◌, ◌≢◌, refl, sym, ap, ◌∙◌, inl, inr, Bool, Bool-cases, true, false, Option, none,
  some, arith, if◌then◌else◌,
}
use edn_core.Text.{Text, ◌=?◌}
use edn_core.Text.Laws.{eq_of_test, test_of_eq, test-other}
use edn_core.Checkout.{Time}
use edn_core.Redis.{
  Entries, Entry, Stored, text, live, put, expiring, Written, SetNx, Ran, script_effect, value_of,
}
use edn_core.CheckoutStore.{release_lock_script}

-- No other entry than that of the key is written.
pub Written-other :
    (k j : Text) (e : Option Entry) (es fs : Entries) (done : Bool)
    → (k =? j) ≡ false
    → Written es (put j e es) done fs
    → fs k ≡ es k
Written-other k j e es fs true ne h = h k ∙ rw ne refl
Written-other k j e es fs false ne (inl h) = h k
Written-other k j e es fs false ne (inr h) = h k ∙ rw ne refl

put-other : (k j : Text) (e : Option Entry) (es : Entries) → (k =? j) ≡ false → put j e es k ≡ es k
put-other k j e es ne = rw ne refl

-- SetNX leaves a live entry alone, also under its own key.
pub SetNx-live :
    (k j : Text) (v : Stored) (ttl : ℕ) (now : Time) (es fs : Entries) (o : Option Bool)
    → live now (es k) ≡ true
    → SetNx j v ttl now es o fs
    → fs k ≡ es k
SetNx-live k j v ttl now es fs (some true) l (free, h) = elim (Bool-cases (k =? j)) [
  | inl e ↦ cc (l, free, ap (λ t. live now (es t)) (eq_of_test k j e))
  | inr ne ↦ h k ∙ put-other k j (expiring v ttl now) es ne
]
SetNx-live k j v ttl now es fs (some false) l (_, h) = h k
SetNx-live k j v ttl now es fs none l (inl h) = h k
SetNx-live k j v ttl now es fs none l (inr (free, h)) = elim (Bool-cases (k =? j)) [
  | inl e ↦ cc (l, free, ap (λ t. live now (es t)) (eq_of_test k j e))
  | inr ne ↦ h k ∙ put-other k j (expiring v ttl now) es ne
]

script-other :
    (k j : Text) (b : Bool) (es : Entries)
    → (k =? j) ≡ false
    → (if b then put j none es else es) k ≡ es k
script-other k j true es ne = put-other k j none es ne
script-other k j false es ne = refl

script-refuses :
    (token token' : Text) (b : Bool)
    → (token ≡ token' → ⊥)
    → (release_lock_script (if b then some (text token) else none) token').0 ≡ false
unfolding release_lock_script
script-refuses token token' true ne = rw (test-other token' token ne)
script-refuses token token' false ne = refl

-- A lock that is held: its token, until the deadline.
abbrev pub LockedBy : Text → Text → Time → Entries → Type 0
LockedBy k token deadline es = es k ≡ some (record { value = text token; deadline = some deadline })

-- The release script leaves an entry with another token alone.
script_effect-kept :
    (k j token token' : Text) (deadline now : Time) (es : Entries)
    → LockedBy k token deadline es
    → (j ≡ k → token' ≢ token)
    → script_effect release_lock_script j token' now es k ≡ es k
script_effect-kept k j token token' deadline now es e other = elim (Bool-cases (k =? j)) [
  | inr ne ↦ script-other k j (release_lock_script (value_of now (es j)) token').0 es ne
  | inl same ↦
      let j_is_k = sym (eq_of_test k j same) in
      let stored = ap es j_is_k ∙ e in
      let refused = script-refuses token token' (ltb now deadline) (λ h. other j_is_k (sym h)) in
      rw (stored, refused) refl
]

pub Ran-kept :
    (k j token token' : Text) (deadline now : Time) (es fs : Entries) (o : Option ℕ)
    → LockedBy k token deadline es
    → (j ≡ k → token' ≢ token)
    → Ran release_lock_script j token' now es o fs
    → fs k ≡ es k
Ran-kept k j token token' deadline now es fs (some n) e other (_, h) =
    h k ∙ script_effect-kept k j token token' deadline now es e other
Ran-kept k j token token' deadline now es fs none e other (inl h) = h k
Ran-kept k j token token' deadline now es fs none e other (inr h) =
    h k ∙ script_effect-kept k j token token' deadline now es e other

pub ltb_of_lt : (a b : ℕ) → a < b → ltb a b ≡ true
ltb_of_lt a b h = ground arith

script-accepts :
    (token : Text) (b : Bool)
    → b ≡ true
    → (release_lock_script (if b then some (text token) else none) token).0 ≡ true
unfolding release_lock_script
script-accepts token true h = rw (test_of_eq token token refl)
script-accepts token false h = cc

pub script_effect-released :
    (k token : Text) (deadline now : Time) (es : Entries)
    → LockedBy k token deadline es
    → now < deadline
    → script_effect release_lock_script k token now es k ≡ none
script_effect-released k token deadline now es e soon =
    rw
      (
        e,
        script-accepts token (ltb now deadline) (ltb_of_lt now deadline soon),
        test_of_eq k k refl,
      )
      refl
