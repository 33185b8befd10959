-- ===== src/Tests/Memory/Sorting.antt =====
-- What the collection in memory sorts.
use edn_core.Prelude.{
  ℕ, zero, suc, ◌≤◌, ◌≡◌, refl, sym, ap, subst, ◌⊎◌, inl, inr, Bool, true, false, Option, none,
  some, List, [], ◌∷◌, length, take, arith, if◌then◌else◌,
}
use edn_core.Mongo.{Has, FoundFirst, Sorted, IsOrder, Limited}
use edn_core.Tests.Memory.{filter, place, sort, limited, first}
use edn_core.Tests.Memory.Finding.{filter_sound, filter_complete, nothing}

module _ {D : Type 0} where
  place_sound :
      (before : D → D → Bool) (x d : D) (xs : List D)
      → Has x (place before d xs)
      → (x ≡ d) ⊎ Has x xs
  place_sound before x d [] h = h
  place_sound before x d (y ∷ xs) h = go (before d y) (place_sound before x d xs) h
    where
      go :
          (b : Bool)
          → (Has x (place before d xs) → (x ≡ d) ⊎ Has x xs)
          → Has x (if b then d ∷ y ∷ xs else y ∷ place before d xs)
          → (x ≡ d) ⊎ Has x (y ∷ xs)
      go true rec k = k
      go false rec (inl q) = inr (inl q)
      go false rec (inr k) = elim (rec k) [ inl q ↦ inl q | inr m ↦ inr (inr m) ]

  place_complete :
      (before : D → D → Bool) (x d : D) (xs : List D)
      → (x ≡ d) ⊎ Has x xs
      → Has x (place before d xs)
  place_complete before x d [] h = h
  place_complete before x d (y ∷ xs) h = go (before d y) (place_complete before x d xs) h
    where
      go :
          (b : Bool)
          → ((x ≡ d) ⊎ Has x xs → Has x (place before d xs))
          → (x ≡ d) ⊎ Has x (y ∷ xs)
          → Has x (if b then d ∷ y ∷ xs else y ∷ place before d xs)
      go true rec k = k
      go false rec (inl q) = inr (rec (inl q))
      go false rec (inr (inl q)) = inl q
      go false rec (inr (inr k)) = inr (rec (inr k))

  pub sort_sound : (before : D → D → Bool) (x : D) (xs : List D) → Has x (sort before xs) → Has x xs
  sort_sound before x [] h = h
  sort_sound before x (y ∷ xs) h = elim (place_sound before x y (sort before xs) h) [
    | inl q ↦ inl q
    | inr k ↦ inr (sort_sound before x xs k)
  ]

  sort_complete : (before : D → D → Bool) (x : D) (xs : List D) → Has x xs → Has x (sort before xs)
  sort_complete before x [] h = h
  sort_complete before x (y ∷ xs) (inl q) = place_complete before x y (sort before xs) (inl q)
  sort_complete before x (y ∷ xs) (inr k) =
      place_complete before x y (sort before xs) (inr (sort_complete before x xs k))

  module _ (before : D → D → Bool) (order : IsOrder before) where
    place-Sorted : (d : D) (xs : List D) → Sorted before xs → Sorted before (place before d xs)
    place-Sorted d [] h = (λ y k. absurd k, tt)
    place-Sorted d (x ∷ xs) (all, rest) = go (before d x) refl (place-Sorted d xs rest)
      where
        go :
            (b : Bool)
            → before d x ≡ b
            → Sorted before (place before d xs)
            → Sorted before (if b then d ∷ x ∷ xs else x ∷ place before d xs)
        go true e rec = (
          λ y k. elim k [
            | inl q ↦ subst (λ z. before d z ≡ true) (sym q) e
            | inr m ↦ order.trans d x y e (all y m)
          ],
          (all, rest),
        )
        go false e rec = (
          λ y k. elim (place_sound before y d xs k) [
            | inl q ↦
                subst (λ z. before x z ≡ true) (sym q)
                  (elim (order.total d x) [ inl a ↦ absurd (ground arith) | inr a ↦ a ])
            | inr m ↦ all y m
          ],
          rec,
        )

    pub sort-Sorted : (xs : List D) → Sorted before (sort before xs)
    sort-Sorted [] = tt
    sort-Sorted (x ∷ xs) = place-Sorted x (sort before xs) (sort-Sorted xs)

    take_sound : (n : ℕ) (x : D) (xs : List D) → Has x (take n xs) → Has x xs
    take_sound zero x xs h = absurd h
    take_sound (suc n) x [] h = absurd h
    take_sound (suc n) x (y ∷ xs) (inl q) = inl q
    take_sound (suc n) x (y ∷ xs) (inr k) = inr (take_sound n x xs k)

    take-Sorted : (n : ℕ) (xs : List D) → Sorted before xs → Sorted before (take n xs)
    take-Sorted zero xs h = tt
    take-Sorted (suc n) [] h = tt
    take-Sorted (suc n) (x ∷ xs) (all, rest) =
        (λ y k. all y (take_sound n y xs k), take-Sorted n xs rest)

    length-take_le : (n : ℕ) (xs : List D) → length (take n xs) ≤ n
    length-take_le zero xs = omega arith
    length-take_le (suc n) [] = omega arith
    length-take_le (suc n) (x ∷ xs) = ground (arith, length-take_le n xs)

    take_complete :
        (n : ℕ) (x : D) (xs : List D)
        → Sorted before xs
        → Has x xs
        → Has x (take n xs)
          ⊎ ((n ≡ length (take n xs)) × ((y : D) → Has y (take n xs) → before y x ≡ true))
    take_complete zero x xs h k = inr (refl, λ y m. absurd m)
    take_complete (suc n) x [] h k = absurd k
    take_complete (suc n) x (z ∷ xs) h (inl q) = inl (inl q)
    take_complete (suc n) x (z ∷ xs) (all, rest) (inr k) = elim (take_complete n x xs rest k) [
      | inl m ↦ inl (inr m)
      | inr (e, behind) ↦ inr (
        ap suc e,
        λ y m. elim m [
          | inl q ↦ subst (λ w. before w x ≡ true) (sym q) (all x k)
          | inr l ↦ behind y l
        ],
      )
    ]

    pub limited-Limited :
        (p : D → Bool) (limit : Option ℕ) (xs : List D)
        → Limited limit p before xs (limited limit (sort before (filter p xs)))
    limited-Limited p none xs =
        λ x h e. sort_complete before x (filter p xs) (filter_complete p x xs h e)
    limited-Limited p (some n) xs = (
      length-take_le n (sort before (filter p xs)),
      λ x h e.
          take_complete n x (sort before (filter p xs)) (sort-Sorted (filter p xs))
            (sort_complete before x (filter p xs) (filter_complete p x xs h e)),
    )

    pub limited_sound :
        (limit : Option ℕ) (x : D) (xs : List D) → Has x (limited limit xs) → Has x xs
    limited_sound none x xs h = h
    limited_sound (some n) x xs h = take_sound n x xs h

    pub limited-Sorted :
        (limit : Option ℕ) (xs : List D) → Sorted before xs → Sorted before (limited limit xs)
    limited-Sorted none xs h = h
    limited-Sorted (some n) xs h = take-Sorted n xs h

    pub first-FoundFirst :
        (p : D → Bool) (xs : List D) → FoundFirst p before xs (first (sort before (filter p xs)))
    first-FoundFirst p xs =
        go (sort before (filter p xs)) (sort-Sorted (filter p xs))
          (λ x h. filter_sound p x xs (sort_sound before x (filter p xs) h))
          (λ x h e. sort_complete before x (filter p xs) (filter_complete p x xs h e))
      where
        go :
            (ds : List D)
            → Sorted before ds
            → ((x : D) → Has x ds → Has x xs × (p x ≡ true))
            → ((x : D) → Has x xs → p x ≡ true → Has x ds)
            → FoundFirst p before xs (first ds)
        go [] h sound complete = nothing p xs complete
        go (d ∷ ds) (all, h) sound complete = (
          (sound d (inl refl)).0,
          (sound d (inl refl)).1,
          λ x k e. elim (complete x k e) [
            | inl q ↦
                subst (λ z. before d z ≡ true) (sym q)
                  (elim (order.total d d) [ inl a ↦ a | inr a ↦ a ])
            | inr m ↦ all x m
          ],
        )
