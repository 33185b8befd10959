-- ===== src/Stored/Outbox/Fetching.antt =====
-- The outbox: what is fetched, and what an insert does.
use edn_core.Prelude.{
  ℕ, ◌≤◌, ◌≡◌, ◌≢◌, refl, ◌⊎◌, inl, inr, leb_total, true, false, some, List, [], ◌∷◌, length, sym,
  subst, arith,
}
use edn_core.Checkout.{OutboxEvent}
use edn_core.Errors.{Result, ok, err, wrapped, other}
use edn_core.Mongo.{
  Collection, CollectionLaws, FetchAll, fetched, query_failed, Has, FoundSorted, Sorted, IsOrder,
}
use edn_core.Stored.Results.{find_all_result}
use edn_core.Stored.Outbox.{outbox_indexes, fetch_unpublished, unpublished, oldest_first, limit_of}

oldest_first-IsOrder : IsOrder oldest_first
oldest_first-IsOrder = record {
  total = λ a b. leb_total a.created_at b.created_at;
  trans = λ a b c h k. ground arith;
}

-- No event is younger than one that follows it.
abbrev pub OldestFirst : List OutboxEvent → Type 0
OldestFirst [] = Unit
OldestFirst (e ∷ es) =
    ((later : OutboxEvent) → Has later es → e.created_at ≤ later.created_at) × OldestFirst es

-- Unpublished events, the oldest first and at most `limit` of them. One that is missing is no older
-- than any of them, and only missing if the limit is reached.
abbrev pub Fetched : ℕ → List OutboxEvent → Result (List OutboxEvent) → Type 0
Fetched limit events (ok es) =
    ((e : OutboxEvent) → Has e es → Has e events × (e.published ≡ false))
    × OldestFirst es
    × (length es ≤ limit)
    × ((e : OutboxEvent)
        → Has e events
        → e.published ≡ false
        → Has e es
          ⊎ ((limit ≡ length es) × ((y : OutboxEvent) → Has y es → y.created_at ≤ e.created_at)))
Fetched limit events (err e) = e ≡ wrapped other

no_later : (a b : OutboxEvent) → oldest_first a b ≡ true → a.created_at ≤ b.created_at
no_later a b h = ground arith

oldest_first-OldestFirst : (es : List OutboxEvent) → Sorted oldest_first es → OldestFirst es
oldest_first-OldestFirst [] sorted = tt
oldest_first-OldestFirst (e ∷ es) (first, sorted) =
    (λ later h. no_later e later (first later h), oldest_first-OldestFirst es sorted)

published_of : (e : OutboxEvent) → unpublished e ≡ true → e.published ≡ false
published_of e h = ground arith

unpublished_of : (e : OutboxEvent) → e.published ≡ false → unpublished e ≡ true
unpublished_of e h = rw h

limit_of_pos : (n : ℕ) → n ≢ 0 → limit_of n ≡ some n
limit_of_pos n ne = ground arith

module _ (c : Collection OutboxEvent) (laws : CollectionLaws outbox_indexes c) where
  -- With a limit that is not 0, FetchUnpublished returns stored events that are unpublished, at most
  -- as many as the limit and the oldest first; an unpublished event is left out only if the limit is
  -- reached by events that are no younger than it. The only error is one of the driver.
  pub fetch_unpublished-Fetched :
      (limit : ℕ) (s : c.State) → limit ≢ 0 → Fetched limit (c.docs s) (fetch_unpublished c limit s)
  unfolding fetch_unpublished
  fetch_unpublished-Fetched limit s ne =
      subst
        (λ l.
          Fetched limit (c.docs s) (find_all_result (c.find_sorted unpublished oldest_first l s)))
        (sym (limit_of_pos limit ne))
        (go (c.find_sorted unpublished oldest_first (some limit) s)
          (laws.find_sorted_law unpublished oldest_first (some limit) s oldest_first-IsOrder))
    where
      go :
          (f : FetchAll OutboxEvent)
          → FoundSorted unpublished oldest_first (some limit) (c.docs s) f
          → Fetched limit (c.docs s) (find_all_result f)
      go (fetched ds) (sound, sorted, (few, rest)) = (
        λ e h. ((sound e h).0, published_of e (sound e h).1),
        oldest_first-OldestFirst ds sorted,
        few,
        λ e h u. elim (rest e h (unpublished_of e u)) [
          | inl k ↦ inl k
          | inr (full, older) ↦ inr (full, λ y k. no_later y e (older y k))
        ],
      )
      go query_failed h = refl
