-- ===== src/Tests/Memory.antt =====
-- A collection in memory.
pub mod Finding
pub mod Sorting
pub mod Backed
use edn_core.Prelude.{
  ℕ, zero, suc, ◌≤◌, ◌≡◌, refl, sym, ap, ◌∙◌, subst, ◌⊎◌, inl, inr, Bool, Bool-cases, true, false,
  Option, none, some, List, [], ◌∷◌, length, take, any, arith, if◌then◌else◌,
}
use edn_core.Mongo.{
  Collection, CollectionLaws, UniqueIndex, InsertOutcome, inserted, duplicate_key, Fetch, found,
  no_documents, FetchAll, fetched, UpdateOutcome, matched, Count, counted, clashes, Has, Replaced,
  here, there, Inserted, FoundOne, FoundFirst, Sorted, IsOrder, Limited, Updated, Upserted, Counted,
}

module _ {D : Type 0} where
  abbrev pub filter : (D → Bool) → List D → List D
  filter p [] = []
  filter p (x ∷ xs) = if p x then x ∷ filter p xs else filter p xs

  abbrev pub place : (D → D → Bool) → D → List D → List D
  place before d [] = d ∷ []
  place before d (x ∷ xs) = if before d x then d ∷ x ∷ xs else x ∷ place before d xs

  abbrev pub sort : (D → D → Bool) → List D → List D
  sort before [] = []
  sort before (x ∷ xs) = place before x (sort before xs)

  abbrev pub limited : Option ℕ → List D → List D
  limited none xs = xs
  limited (some n) xs = take n xs

  abbrev pub first : List D → Fetch D
  first [] = no_documents
  first (x ∷ xs) = found x

  abbrev pub replace : (D → Bool) → (D → D) → List D → List D
  replace p f [] = []
  replace p f (x ∷ xs) = if p x then f x ∷ xs else x ∷ replace p f xs

  abbrev pub insert_in : List (UniqueIndex D) → D → List D → List D × InsertOutcome
  insert_in is d xs = if clashes is d xs then (xs, duplicate_key) else (d ∷ xs, inserted)

  abbrev pub update_in : (D → Bool) → (D → D) → List D → List D × UpdateOutcome
  update_in p f xs = if any p xs then (replace p f xs, matched 1) else (xs, matched 0)

  abbrev pub upsert_in :
      List (UniqueIndex D) → (D → Bool) → (D → D) → D → List D → List D × UpdateOutcome
  upsert_in is p f d xs =
      if any p xs
      then (replace p f xs, matched 1)
      else if clashes is d xs
      then (xs, UpdateOutcome.update_failed)
      else (d ∷ xs, matched 0)

  abbrev pub count_in : (D → Bool) → List D → Count
  count_in p xs = if any p xs then counted 1 else counted 0

module _ {D : Type 0} (is : List (UniqueIndex D)) where
  abbrev pub memory : Collection D
  memory = record {
    State = List D;
    docs = λ xs. xs;
    insert_one = insert_in is;
    find_one = λ p xs. first (filter p xs);
    find_first = λ p before xs. first (sort before (filter p xs));
    find = λ p xs. fetched (filter p xs);
    find_sorted = λ p before limit xs. fetched (limited limit (sort before (filter p xs)));
    update_one = update_in;
    upsert_one = upsert_in is;
    count_documents = count_in;
  }
