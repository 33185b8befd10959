-- ===== src/Whatsapp/Intake/Adding.antt =====
-- Keys that are added to both collections.
use edn_core.Prelude.{
  ◌≡◌, refl, sym, ap, ◌∙◌, subst, Bool, true, false, List, [], ◌∷◌, ◌++◌, map, any, All, or_right,
  or_left,
}
use mathlib.Core.List.{append_assoc}
use edn_core.Text.{Text, ◌=?◌}
use edn_core.Text.Laws.{test_of_eq}
use edn_core.Whatsapp.{DedupeRecord, MessageReceipt}
use edn_core.Whatsapp.Store.{has_dedupe, Nothing, Both}

abbrev pub dedupe_keys : List DedupeRecord → List Text
dedupe_keys = map (λ d. d.dedupe_key)

abbrev receipt_keys : List MessageReceipt → List Text
receipt_keys = map (λ r. r.dedupe_key)

abbrev pub among : Text → List Text → Bool
among k = any (λ j. k =? j)

-- Keys that are new: not in `old`, and each once.
abbrev Fresh : List Text → List Text → Type 0
Fresh [] old = Unit
Fresh (k ∷ ks) old = (among k (ks ++ old) ≡ false) × Fresh ks old

-- The same new keys in front of both collections, each the key of an item.
abbrev pub Added :
    List Text
    → List DedupeRecord
    → List MessageReceipt
    → List DedupeRecord
    → List MessageReceipt
    → Type 0
Added wanted ds rs ds' rs' =
    (ks : List Text) × (dedupe_keys ds' ≡ ks ++ dedupe_keys ds)
    × (receipt_keys rs' ≡ ks ++ receipt_keys rs)
    × Fresh ks (dedupe_keys ds)
    × All (λ k. among k wanted ≡ true) ks

pub among-append : (k : Text) (js ks : List Text) → among k ks ≡ true → among k (js ++ ks) ≡ true
among-append k [] ks h = h
among-append k (j ∷ js) ks h = or_right _ _ (among-append k js ks h)

pub has_dedupe-keys :
    (k : Text) (ds : List DedupeRecord) → has_dedupe k ds ≡ among k (dedupe_keys ds)
has_dedupe-keys k [] = refl
has_dedupe-keys k (d ∷ ds) = rw (has_dedupe-keys k ds)

Fresh-snoc :
    (ks : List Text) (k : Text) (old : List Text)
    → Fresh ks (k ∷ old)
    → among k old ≡ false
    → Fresh (ks ++ k ∷ []) old
Fresh-snoc [] k old f h = (h, tt)
Fresh-snoc (j ∷ ks) k old (a, f) h =
    (ap (among j) (append_assoc ks (k ∷ []) old) ∙ a, Fresh-snoc ks k old f h)

All-snoc : (P : Text → Type 0) (ks : List Text) (k : Text) → All P ks → P k → All P (ks ++ k ∷ [])
All-snoc P [] k a p = (p, tt)
All-snoc P (j ∷ ks) k (q, a) p = (q, All-snoc P ks k a p)

All-wider :
    (wanted : List Text) (k : Text) (ks : List Text)
    → All (λ j. among j wanted ≡ true) ks
    → All (λ j. among j (k ∷ wanted) ≡ true) ks
All-wider wanted k [] a = tt
All-wider wanted k (j ∷ ks) (h, a) = (or_right _ _ h, All-wider wanted k ks a)

-- Nothing was added, or the key of the first item, and then those of the others.
pub Added-none :
    (wanted : List Text) (k : Text) (ds : List DedupeRecord) (rs : List MessageReceipt)
    (ds1 : List DedupeRecord) (rs1 : List MessageReceipt) (ds' : List DedupeRecord)
    (rs' : List MessageReceipt)
    → Nothing ds rs ds1 rs1
    → Added wanted ds1 rs1 ds' rs'
    → Added (k ∷ wanted) ds rs ds' rs'
Added-none wanted k ds rs ds1 rs1 ds' rs' (p, q) (ks, e, f, fresh, wants) = (
  ks,
  e ∙ ap (λ x. ks ++ dedupe_keys x) p,
  f ∙ ap (λ x. ks ++ receipt_keys x) q,
  subst (λ x. Fresh ks (dedupe_keys x)) p fresh,
  All-wider wanted k ks wants,
)

pub Added-one :
    (wanted : List Text) (d : DedupeRecord) (r : MessageReceipt) (ds : List DedupeRecord)
    (rs : List MessageReceipt) (ds1 : List DedupeRecord) (rs1 : List MessageReceipt)
    (ds' : List DedupeRecord) (rs' : List MessageReceipt)
    → r.dedupe_key ≡ d.dedupe_key
    → Both d r ds rs ds1 rs1
    → Added wanted ds1 rs1 ds' rs'
    → Added (d.dedupe_key ∷ wanted) ds rs ds' rs'
Added-one wanted d r ds rs ds1 rs1 ds' rs' same (new, p, q) (ks, e, f, fresh, wants) =
    let k = d.dedupe_key in
    (
      ks ++ k ∷ [],
      e ∙ ap (λ x. ks ++ dedupe_keys x) p ∙ sym (append_assoc ks (k ∷ []) (dedupe_keys ds)),
      f
          ∙ ap (λ x. ks ++ receipt_keys x) q
          ∙ ap (λ j. ks ++ j ∷ receipt_keys rs) same
          ∙ sym (append_assoc ks (k ∷ []) (receipt_keys rs)),
      Fresh-snoc ks k (dedupe_keys ds) (subst (λ x. Fresh ks (dedupe_keys x)) p fresh)
          (sym (has_dedupe-keys k ds) ∙ new),
      All-snoc (λ j. among j (k ∷ wanted) ≡ true) ks k (All-wider wanted k ks wants)
          (or_left _ _ (test_of_eq k k refl)),
    )
