-- ===== src/Stored/Results.antt =====
-- The error handling that the methods of the repositories share.
use edn_core.Prelude.{zero, suc, ◌-◌, ◌%◌, Bool, not, ◌&&◌, Option, none, some, List}
use edn_core.Text.{Text, ◌=?◌, is_empty}
use edn_core.Checkout.{Time}
use edn_core.Mongo.{
  InsertOutcome, inserted, duplicate_key, insert_failed, Fetch, found, no_documents, fetch_failed,
  FetchAll, fetched, query_failed, UpdateOutcome, matched, update_failed,
}
use edn_core.Errors.{Sentinel, Error, sentinel, wrapped, other, Result, ok, err}

-- time.Time as the driver stores it: a BSON date, in milliseconds
unfoldable pub bson_date : Time → Time
bson_date t = t - t % 1000000

-- a time that may be missing
abbrev pub optional_date : Option Time → Option Time
optional_date none = none
optional_date (some t) = some (bson_date t)

-- InsertOne where a duplicate key has an error of its own
abbrev pub insert_result : Error → InsertOutcome → Result (Unit {0})
insert_result e inserted = ok tt
insert_result e duplicate_key = err e
insert_result e insert_failed = err (wrapped other)

-- FindOne and Decode, with the error for `mongo.ErrNoDocuments`
abbrev pub find_result : {D : Type 0} → Sentinel → Fetch D → Result D
find_result e (found d) = ok d
find_result e no_documents = err (sentinel e)
find_result e fetch_failed = err (wrapped other)

-- Find and cursor.All
abbrev pub find_all_result : {D : Type 0} → FetchAll D → Result (List D)
find_all_result (fetched ds) = ok ds
find_all_result query_failed = err (wrapped other)

-- UpdateOne, with the error for no match
abbrev pub update_result : Error → UpdateOutcome → Result (Unit {0})
update_result e (matched zero) = err e
update_result e (matched (suc _)) = ok tt
update_result e update_failed = err (wrapped other)

-- What a method returns: the new state and its result.
abbrev pub with_result : {S A B : Type 0} → (A → B) → S × A → S × B
with_result f (s, a) = (s, f a)

-- A filter on a field that is `omitempty`: a document without the field matches no string.
abbrev pub field_is : Text → Text → Bool
field_is field value = not (is_empty field) && field =? value
