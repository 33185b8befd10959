-- ===== src/Mongo.antt =====
-- What the repositories use of the MongoDB driver (go.mongodb.org/mongo-driver), which is not part of
-- the repository: a collection of documents of one type, as a parameter with its documented behaviour
-- as laws. A filter is a test on documents, an update a function on them; a document is typed, and
-- decoding it is part of the call. A call may fail, and a failed write may or may not have been made.
pub mod Documents
use edn_core.Prelude.{
  ℕ, zero, suc, ◌≤◌, ◌<◌, ◌≡◌, ◌⊎◌, Bool, true, false, ◌&&◌, ◌||◌, Option, none, some, List, [],
  ◌∷◌, length, any, holds,
}
use edn_core.Text.{Text, Text-discrete}

pub data InsertOutcome : Type 0 where
  inserted duplicate_key insert_failed : InsertOutcome

pub data Fetch (D : Type 0) : Type 0 where
  found : D → Fetch D
  no_documents fetch_failed : Fetch D

pub data FetchAll (D : Type 0) : Type 0 where
  fetched : List D → FetchAll D
  query_failed : FetchAll D

-- How many documents the filter matched.
pub data UpdateOutcome : Type 0 where
  matched : ℕ → UpdateOutcome
  update_failed : UpdateOutcome

pub data Count : Type 0 where
  counted : ℕ → Count
  count_failed : Count

-- `before` says that a document may stand before another one.
pub record Collection (D : Type 0) : Type 1 where
  pub State : Type 0
  -- the stored documents, in an order that means nothing
  pub docs : State → List D
  pub insert_one : D → State → State × InsertOutcome
  pub find_one : (D → Bool) → State → Fetch D
  pub find_first : (D → Bool) → (D → D → Bool) → State → Fetch D
  pub find : (D → Bool) → State → FetchAll D
  pub find_sorted : (D → Bool) → (D → D → Bool) → Option ℕ → State → FetchAll D
  pub update_one : (D → Bool) → (D → D) → State → State × UpdateOutcome
  -- UpdateOne with upsert: the document that is inserted where the filter matches none
  pub upsert_one : (D → Bool) → (D → D) → D → State → State × UpdateOutcome
  pub count_documents : (D → Bool) → State → Count

-- A unique index: the values of its fields, and the documents that it holds (a sparse index holds
-- those that have the field).
pub record UniqueIndex (D : Type 0) : Type 0 where
  pub fields : D → List Text
  pub holds_document : D → Bool

unfoldable pub Texts-discrete : Discrete (List Text)
unfolding Text-discrete
Texts-discrete = hlevel Text-discrete

module _ {D : Type 0} where
  abbrev pub clash : List (UniqueIndex D) → D → D → Bool
  clash [] a b = false
  clash (i ∷ is) a b =
      i.holds_document a && (i.holds_document b && holds (Texts-discrete (i.fields a) (i.fields b)))
      || clash is a b

  abbrev pub clashes : List (UniqueIndex D) → D → List D → Bool
  clashes is d = any (clash is d)

  abbrev pub Has : D → List D → Type 0
  Has d [] = ⊥
  Has d (x ∷ xs) = (d ≡ x) ⊎ Has d xs

  -- One document that the filter matches is replaced.
  pub data Replaced (p : D → Bool) (f : D → D) : List D → List D → Type 0 where
    here : (x : D) (xs : List D) → p x ≡ true → Replaced p f (x ∷ xs) (f x ∷ xs)
    there : (x : D) (xs ys : List D) → Replaced p f xs ys → Replaced p f (x ∷ xs) (x ∷ ys)

  abbrev pub Inserted : List (UniqueIndex D) → D → List D → InsertOutcome → List D → Type 0
  Inserted is d xs inserted ys = (clashes is d xs ≡ false) × (ys ≡ d ∷ xs)
  Inserted is d xs duplicate_key ys = (clashes is d xs ≡ true) × (ys ≡ xs)
  Inserted is d xs insert_failed ys = (ys ≡ xs) ⊎ ((clashes is d xs ≡ false) × (ys ≡ d ∷ xs))

  abbrev pub FoundOne : (D → Bool) → List D → Fetch D → Type 0
  FoundOne p xs (found d) = Has d xs × (p d ≡ true)
  FoundOne p xs no_documents = any p xs ≡ false
  FoundOne p xs fetch_failed = Unit

  -- None of those that match has to stand before the one found.
  abbrev pub FoundFirst : (D → Bool) → (D → D → Bool) → List D → Fetch D → Type 0
  FoundFirst p before xs (found d) =
      Has d xs × (p d ≡ true) × ((x : D) → Has x xs → p x ≡ true → before d x ≡ true)
  FoundFirst p before xs no_documents = any p xs ≡ false
  FoundFirst p before xs fetch_failed = Unit

  -- Exactly the documents that match.
  abbrev FoundAll : (D → Bool) → List D → FetchAll D → Type 0
  FoundAll p xs (fetched ds) =
      ((x : D) → Has x ds → Has x xs × (p x ≡ true)) × ((x : D) → Has x xs → p x ≡ true → Has x ds)
  FoundAll p xs query_failed = Unit

  -- Each document may stand before all that follow it.
  abbrev pub Sorted : (D → D → Bool) → List D → Type 0
  Sorted before [] = Unit
  Sorted before (x ∷ ds) = ((y : D) → Has y ds → before x y ≡ true) × Sorted before ds

  -- What the driver can sort by.
  pub record IsOrder (before : D → D → Bool) : Type 0 where
    pub total : (a b : D) → (before a b ≡ true) ⊎ (before b a ≡ true)
    pub trans : (a b c : D) → before a b ≡ true → before b c ≡ true → before a c ≡ true

  -- The first ones of those that match: what is left out stands behind what is there.
  abbrev pub Limited : Option ℕ → (D → Bool) → (D → D → Bool) → List D → List D → Type 0
  Limited none p before xs ds = (x : D) → Has x xs → p x ≡ true → Has x ds
  Limited (some n) p before xs ds =
      (length ds ≤ n)
      × ((x : D)
          → Has x xs
          → p x ≡ true
          → Has x ds ⊎ ((n ≡ length ds) × ((y : D) → Has y ds → before y x ≡ true)))

  abbrev pub FoundSorted : (D → Bool) → (D → D → Bool) → Option ℕ → List D → FetchAll D → Type 0
  FoundSorted p before limit xs (fetched ds) =
      ((x : D) → Has x ds → Has x xs × (p x ≡ true))
      × Sorted before ds
      × Limited limit p before xs ds
  FoundSorted p before limit xs query_failed = Unit

  abbrev pub Updated : (D → Bool) → (D → D) → List D → UpdateOutcome → List D → Type 0
  Updated p f xs (matched zero) ys = (any p xs ≡ false) × (ys ≡ xs)
  Updated p f xs (matched (suc _)) ys = Replaced p f xs ys
  Updated p f xs update_failed ys = (ys ≡ xs) ⊎ Replaced p f xs ys

  -- An upsert inserts where nothing matches, unless a unique index forbids it.
  abbrev pub Upserted :
      List (UniqueIndex D) → (D → Bool) → (D → D) → D → List D → UpdateOutcome → List D → Type 0
  Upserted is p f d xs (matched zero) ys =
      (any p xs ≡ false) × (clashes is d xs ≡ false) × (ys ≡ d ∷ xs)
  Upserted is p f d xs (matched (suc _)) ys = Replaced p f xs ys
  Upserted is p f d xs update_failed ys =
      (ys ≡ xs)
      ⊎ (Replaced p f xs ys ⊎ ((any p xs ≡ false) × (clashes is d xs ≡ false) × (ys ≡ d ∷ xs)))

  abbrev pub Counted : (D → Bool) → List D → Count → Type 0
  Counted p xs (counted zero) = any p xs ≡ false
  Counted p xs (counted (suc _)) = any p xs ≡ true
  Counted p xs count_failed = Unit

-- The documented behaviour, for the unique indexes of the collection.
pub record CollectionLaws {D : Type 0} (is : List (UniqueIndex D)) (c : Collection D) : Type 0 where
  pub insert_law :
      (d : D) (s : c.State)
      → Inserted is d (c.docs s) (c.insert_one d s).1 (c.docs (c.insert_one d s).0)
  pub find_one_law : (p : D → Bool) (s : c.State) → FoundOne p (c.docs s) (c.find_one p s)
  pub find_first_law :
      (p : D → Bool) (before : D → D → Bool) (s : c.State)
      → IsOrder before
      → FoundFirst p before (c.docs s) (c.find_first p before s)
  pub find_law : (p : D → Bool) (s : c.State) → FoundAll p (c.docs s) (c.find p s)
  pub find_sorted_law :
      (p : D → Bool) (before : D → D → Bool) (limit : Option ℕ) (s : c.State)
      → IsOrder before
      → FoundSorted p before limit (c.docs s) (c.find_sorted p before limit s)
  pub update_law :
      (p : D → Bool) (f : D → D) (s : c.State)
      → Updated p f (c.docs s) (c.update_one p f s).1 (c.docs (c.update_one p f s).0)
  pub upsert_law :
      (p : D → Bool) (f : D → D) (d : D) (s : c.State)
      → Upserted is p f d (c.docs s) (c.upsert_one p f d s).1 (c.docs (c.upsert_one p f d s).0)
  pub count_law : (p : D → Bool) (s : c.State) → Counted p (c.docs s) (c.count_documents p s)
