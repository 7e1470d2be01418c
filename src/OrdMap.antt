-- ===== src/OrdMap.antt =====
-- `std::collections::BTreeMap` as a list of its entries in ascending order of the keys.
use block_rust.Base.{
  ◌≡◌, refl, Bool, true, false, Option, none, some, List, [], ◌∷◌, arith, if◌then◌else◌,
}
use block_rust.Base.Ord.{Ord}

abbrev pub OrdMap {ℓ κ} : Type ℓ → Type κ → Type (ℓ ⊔ κ)
OrdMap K V = List (K × V)

module _ {ℓ κ} {K : Type ℓ} ⦃o : Ord K⦄ {V : Type κ} where
  unfoldable pub get : K → OrdMap K V → Option V
  get k [] = none
  get k ((j, v) ∷ m) = if o.eq j k then some v else get k m

  unfoldable pub contains_key : K → OrdMap K V → Bool
  contains_key k [] = false
  contains_key k ((j, v) ∷ m) = if o.eq j k then true else contains_key k m

  unfoldable pub insert : K → V → OrdMap K V → OrdMap K V
  insert k v [] = (k, v) ∷ []
  insert k v ((j, w) ∷ m) =
      if o.eq j k
      then (k, v) ∷ m
      else if o.lt k j
      then (k, v) ∷ (j, w) ∷ m
      else (j, w) ∷ insert k v m

  unfoldable pub remove : K → OrdMap K V → OrdMap K V
  remove k [] = []
  remove k ((j, w) ∷ m) = let rest = remove k m in if o.eq j k then rest else (j, w) ∷ rest

  -- A write through `get_mut(k)`, or through a shared pointer to the value at `k`.
  unfoldable pub modify : K → (V → V) → OrdMap K V → OrdMap K V
  modify k f [] = []
  modify k f ((j, w) ∷ m) = (j, if o.eq j k then f w else w) ∷ modify k f m

  -- `range(k..)`, and `range(..=k)`.
  unfoldable pub range_from : K → OrdMap K V → OrdMap K V
  range_from k [] = []
  range_from k ((j, w) ∷ m) = let rest = range_from k m in if o.lt j k then rest else (j, w) ∷ rest

  unfoldable pub range_to : K → OrdMap K V → OrdMap K V
  range_to k [] = []
  range_to k ((j, w) ∷ m) = let rest = range_to k m in if o.lt k j then rest else (j, w) ∷ rest

  pub get-insert :
      (k j : K) (v : V) (m : OrdMap K V)
      → get j (insert k v m) ≡ (if o.eq k j then some v else get j m)
  unfolding get insert
  get-insert k j v [] = ground arith
  get-insert k j v ((i, w) ∷ m) =
      ground (arith, get-insert k j v m, o.eq_iff k j, o.eq_iff i k, o.eq_iff i j)

  pub get-modify :
      (k j : K) (f : V → V) (m : OrdMap K V)
      → get j (modify k f m)
        ≡ (if o.eq k j then elim (get j m) [ none ↦ none | some v ↦ some (f v) ] else get j m)
  unfolding get modify
  get-modify k j f [] = ground arith
  get-modify k j f ((i, w) ∷ m) =
      ground (arith, get-modify k j f m, o.eq_iff k j, o.eq_iff i k, o.eq_iff i j)

  pub get-remove :
      (k j : K) (m : OrdMap K V) → get j (remove k m) ≡ (if o.eq k j then none else get j m)
  unfolding get remove
  get-remove k j [] = ground arith
  get-remove k j ((i, w) ∷ m) =
      ground (arith, get-remove k j m, o.eq_iff k j, o.eq_iff i k, o.eq_iff i j)

  pub contains_key-get :
      (k : K) (m : OrdMap K V) → contains_key k m ≡ elim (get k m) [ none ↦ false | some v ↦ true ]
  unfolding get contains_key
  contains_key-get k [] = refl
  contains_key-get k ((j, w) ∷ m) = ground (arith, contains_key-get k m)
