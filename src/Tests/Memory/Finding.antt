-- ===== src/Tests/Memory/Finding.antt =====
-- What the collection in memory finds and writes.
use edn_core.Prelude.{
  ◌≡◌, refl, sym, ap, ◌∙◌, inl, inr, Bool, Bool-cases, true, false, List, [], ◌∷◌, any, arith,
  if◌then◌else◌,
}
use edn_core.Mongo.{
  UniqueIndex, clashes, Has, Replaced, here, there, Inserted, FoundOne, Updated, Upserted, Counted,
}
use edn_core.Tests.Memory.{filter, first, replace, insert_in, update_in, upsert_in, count_in}

module _ {D : Type 0} where
  pub filter_sound :
      (p : D → Bool) (x : D) (xs : List D) → Has x (filter p xs) → Has x xs × (p x ≡ true)
  filter_sound p x [] h = absurd h
  filter_sound p x (y ∷ xs) h = go (p y) refl (filter_sound p x xs) h
    where
      go :
          (b : Bool)
          → p y ≡ b
          → (Has x (filter p xs) → Has x xs × (p x ≡ true))
          → Has x (if b then y ∷ filter p xs else filter p xs)
          → Has x (y ∷ xs) × (p x ≡ true)
      go true e rec (inl q) = (inl q, ap p q ∙ e)
      go true e rec (inr k) = let (a, b) = rec k in (inr a, b)
      go false e rec k = let (a, b) = rec k in (inr a, b)

  pub filter_complete :
      (p : D → Bool) (x : D) (xs : List D) → Has x xs → p x ≡ true → Has x (filter p xs)
  filter_complete p x [] h e = absurd h
  filter_complete p x (y ∷ xs) (inl q) e = rw (sym (ap p q) ∙ e) (inl q)
  filter_complete p x (y ∷ xs) (inr k) e = elim (Bool-cases (p y)) [
    | inl b ↦ rw b (inr (filter_complete p x xs k e))
    | inr b ↦ rw b (filter_complete p x xs k e)
  ]

  pub nothing :
      (p : D → Bool) (xs : List D) → ((x : D) → Has x xs → p x ≡ true → ⊥) → any p xs ≡ false
  nothing p [] h = refl
  nothing p (x ∷ xs) h = elim (Bool-cases (p x)) [
    | inl b ↦ absurd (h x (inl refl) b)
    | inr b ↦ rw b (nothing p xs (λ y k e. h y (inr k) e))
  ]

  pub first-FoundOne : (p : D → Bool) (xs : List D) → FoundOne p xs (first (filter p xs))
  first-FoundOne p xs =
      go (filter p xs) (λ x h. filter_sound p x xs h) (λ x h e. filter_complete p x xs h e)
    where
      go :
          (ds : List D)
          → ((x : D) → Has x ds → Has x xs × (p x ≡ true))
          → ((x : D) → Has x xs → p x ≡ true → Has x ds)
          → FoundOne p xs (first ds)
      go [] sound complete = nothing p xs complete
      go (d ∷ ds) sound complete = sound d (inl refl)

  replace-Replaced :
      (p : D → Bool) (f : D → D) (xs : List D) → any p xs ≡ true → Replaced p f xs (replace p f xs)
  replace-Replaced p f [] h = absurd (ground arith)
  replace-Replaced p f (x ∷ xs) h = elim (Bool-cases (p x)) [
    | inl b ↦ rw b (here x xs b)
    | inr b ↦ rw b (there x xs (replace p f xs) (replace-Replaced p f xs (ground arith)))
  ]

  pub insert_in-Inserted :
      (is : List (UniqueIndex D)) (d : D) (xs : List D)
      → Inserted is d xs (insert_in is d xs).1 (insert_in is d xs).0
  insert_in-Inserted is d xs = elim (Bool-cases (clashes is d xs)) [
    | inl b ↦ rw b (b, refl)
    | inr b ↦ rw b (b, refl)
  ]

  pub update_in-Updated :
      (p : D → Bool) (f : D → D) (xs : List D)
      → Updated p f xs (update_in p f xs).1 (update_in p f xs).0
  update_in-Updated p f xs = elim (Bool-cases (any p xs)) [
    | inl b ↦ rw b (replace-Replaced p f xs b)
    | inr b ↦ rw b (b, refl)
  ]

  pub upsert_in-Upserted :
      (is : List (UniqueIndex D)) (p : D → Bool) (f : D → D) (d : D) (xs : List D)
      → Upserted is p f d xs (upsert_in is p f d xs).1 (upsert_in is p f d xs).0
  upsert_in-Upserted is p f d xs = elim (Bool-cases (any p xs)) [
    | inl b ↦ rw b (replace-Replaced p f xs b)
    | inr b ↦ elim (Bool-cases (clashes is d xs)) [
      | inl c ↦ rw (b, c) (inl refl)
      | inr c ↦ rw (b, c) (b, c, refl)
    ]
  ]

  pub count_in-Counted : (p : D → Bool) (xs : List D) → Counted p xs (count_in p xs)
  count_in-Counted p xs = elim (Bool-cases (any p xs)) [ inl b ↦ rw b b | inr b ↦ rw b b ]
