-- ===== src/Mongo/Documents.antt =====
-- What a write does to the documents of a collection.
use edn_core.Prelude.{
  zero, suc, ◌≡◌, refl, ap, ◌∙◌, sym, subst, inl, inr, Bool, true, false, List, [], ◌∷◌, map, any,
  holds, arith,
}
use edn_core.Text.{Text}
use edn_core.Mongo.{
  Texts-discrete, UniqueIndex, InsertOutcome, inserted, duplicate_key, insert_failed, UpdateOutcome,
  matched, update_failed, clash, clashes, Has, Replaced, here, there, Inserted, Updated, Upserted,
}

module _ {D : Type 0} where
  -- No two documents have the same key in a unique index.
  abbrev pub NoClash : List (UniqueIndex D) → List D → Type 0
  NoClash is [] = Unit
  NoClash is (x ∷ xs) = (clashes is x xs ≡ false) × NoClash is xs

  module _ (is : List (UniqueIndex D)) where
    pub Inserted-NoClash :
        (d : D) (xs ys : List D) (o : InsertOutcome)
        → Inserted is d xs o ys
        → NoClash is xs
        → NoClash is ys
    Inserted-NoClash d xs ys inserted (fresh, e) n = subst (NoClash is) (sym e) (fresh, n)
    Inserted-NoClash d xs ys duplicate_key (_, e) n = subst (NoClash is) (sym e) n
    Inserted-NoClash d xs ys insert_failed (inl e) n = subst (NoClash is) (sym e) n
    Inserted-NoClash d xs ys insert_failed (inr (fresh, e)) n =
        subst (NoClash is) (sym e) (fresh, n)

    -- An update that leaves the keys alone.
    module _ (p : D → Bool) (f : D → D) (left : (a b : D) → clash is (f a) b ≡ clash is a b)
        (right : (a b : D) → clash is a (f b) ≡ clash is a b) where
      clashes-update : (x : D) (xs : List D) → clashes is (f x) xs ≡ clashes is x xs
      clashes-update x [] = refl
      clashes-update x (y ∷ xs) = rw (left x y, clashes-update x xs)

      clashes-Replaced :
          (z : D) {xs ys : List D} → Replaced p f xs ys → clashes is z ys ≡ clashes is z xs
      clashes-Replaced z (here x xs h) = rw (right z x)
      clashes-Replaced z (there x xs ys r) = rw (clashes-Replaced z r)

      Replaced-NoClash : {xs ys : List D} → Replaced p f xs ys → NoClash is xs → NoClash is ys
      Replaced-NoClash (here x xs h) (fresh, n) = (clashes-update x xs ∙ fresh, n)
      Replaced-NoClash (there x xs ys r) (fresh, n) =
          (clashes-Replaced x r ∙ fresh, Replaced-NoClash r n)

      pub Updated-NoClash :
          (xs ys : List D) (o : UpdateOutcome) → Updated p f xs o ys → NoClash is xs → NoClash is ys
      Updated-NoClash xs ys (matched zero) (_, e) n = subst (NoClash is) (sym e) n
      Updated-NoClash xs ys (matched (suc _)) r n = Replaced-NoClash r n
      Updated-NoClash xs ys update_failed (inl e) n = subst (NoClash is) (sym e) n
      Updated-NoClash xs ys update_failed (inr r) n = Replaced-NoClash r n

      pub Upserted-NoClash :
          (d : D) (xs ys : List D) (o : UpdateOutcome)
          → Upserted is p f d xs o ys
          → NoClash is xs
          → NoClash is ys
      Upserted-NoClash d xs ys (matched zero) (_, fresh, e) n =
          subst (NoClash is) (sym e) (fresh, n)
      Upserted-NoClash d xs ys (matched (suc _)) r n = Replaced-NoClash r n
      Upserted-NoClash d xs ys update_failed (inl e) n = subst (NoClash is) (sym e) n
      Upserted-NoClash d xs ys update_failed (inr (inl r)) n = Replaced-NoClash r n
      Upserted-NoClash d xs ys update_failed (inr (inr (_, fresh, e))) n =
          subst (NoClash is) (sym e) (fresh, n)

  -- What an update leaves alone in each document, it leaves alone in the collection.
  module _ {B : Type 0} (g : D → B) (p : D → Bool) (f : D → D)
      (same : (a : D) → g (f a) ≡ g a) where
    map-Replaced : {xs ys : List D} → Replaced p f xs ys → map g ys ≡ map g xs
    map-Replaced (here x xs h) = ap (λ b. b ∷ map g xs) (same x)
    map-Replaced (there x xs ys r) = ap (λ bs. g x ∷ bs) (map-Replaced r)

    pub map-Updated :
        (xs ys : List D) (o : UpdateOutcome) → Updated p f xs o ys → map g ys ≡ map g xs
    map-Updated xs ys (matched zero) (_, e) = ap (map g) e
    map-Updated xs ys (matched (suc _)) r = map-Replaced r
    map-Updated xs ys update_failed (inl e) = ap (map g) e
    map-Updated xs ys update_failed (inr r) = map-Replaced r

  pub any_of_Has : (p : D → Bool) (d : D) (xs : List D) → Has d xs → p d ≡ true → any p xs ≡ true
  any_of_Has p d [] h e = absurd h
  any_of_Has p d (x ∷ xs) (inl q) e = rw (sym (ap p q) ∙ e)
  any_of_Has p d (x ∷ xs) (inr h) e = ground (arith, any_of_Has p d xs h e)

  -- Two stored documents with the same key are the same.
  pub same_of_clash :
      (is : List (UniqueIndex D)) (a b : D) (xs : List D)
      → NoClash is xs
      → clash is a b ≡ true
      → clash is b a ≡ true
      → Has a xs
      → Has b xs
      → a ≡ b
  same_of_clash is a b [] n ab ba ha hb = absurd ha
  same_of_clash is a b (x ∷ xs) n ab ba (inl p) (inl q) = p ∙ sym q
  same_of_clash is a b (x ∷ xs) n ab ba (inl p) (inr hb) =
      cc (n.0, any_of_Has (clash is x) b xs hb (subst (λ t. clash is t b ≡ true) p ab))
  same_of_clash is a b (x ∷ xs) n ab ba (inr ha) (inl q) =
      cc (n.0, any_of_Has (clash is x) a xs ha (subst (λ t. clash is t a ≡ true) q ba))
  same_of_clash is a b (x ∷ xs) n ab ba (inr ha) (inr hb) = same_of_clash is a b xs n.1 ab ba ha hb

  Has-map : {B : Type 0} (g : D → B) (d : D) (xs : List D) → Has d xs → Has (g d) (map g xs)
  Has-map g d [] h = absurd h
  Has-map g d (x ∷ xs) (inl p) = inl (ap g p)
  Has-map g d (x ∷ xs) (inr h) = inr (Has-map g d xs h)

  pub Has-of_map :
      {B : Type 0} (g : D → B) (b : B) (xs : List D)
      → Has b (map g xs)
      → (d : D) × Has d xs × (g d ≡ b)
  Has-of_map g b [] h = absurd h
  Has-of_map g b (x ∷ xs) (inl p) = (x, inl refl, sym p)
  Has-of_map g b (x ∷ xs) (inr h) = let (d, k, e) = Has-of_map g b xs h in (d, inr k, e)

pub test-same_texts : (a b : List Text) → a ≡ b → holds (Texts-discrete a b) ≡ true
test-same_texts a b e = grind arith
