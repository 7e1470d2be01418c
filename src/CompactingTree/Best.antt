-- ===== src/CompactingTree/Best.antt =====
-- compacting_tree.rs: the loop of a merging cursor chooses the first of the trees with the best key.
use mathlib.Core.Path.{subst}
use mathlib.Core.List.{map, append_assoc, append-nil}
use block_rust.Base.{
  ℕ, zero, suc, ◌+◌, ◌<◌, ◌≡◌, refl, ap, true, false, Option, none, some, List, [], ◌∷◌, ◌++◌,
  arith, get_elem?, length, length-append, get_elem?-append_left, get_elem?-append_self,
  get_elem?-lt, Bool-cases, Option-cases, inl, inr, ◌⊎◌,
}
use block_rust.Base.Ord.{Ord}
use block_rust.Types.{Key, Address}
use block_rust.Command.{Command}
use block_rust.LogFile.{LogFile}
use block_rust.CompactingTree.Cursor.{TreeCursor, seek_all, offer, keep_better}

get_elem?-append_last {ℓ} :
    {A : Type ℓ} (xs : List A) (x y : A) (i : ℕ)
    → get_elem? (xs ++ x ∷ []) i ≡ some y
    → (get_elem? xs i ≡ some y) ⊎ ((i ≡ length xs) × (y ≡ x))
get_elem?-append_last [] x y zero h = inr (refl, ground arith)
get_elem?-append_last [] x y (suc i) h = absurd (cc)
get_elem?-append_last (z ∷ xs) x y zero h = inl h
get_elem?-append_last (z ∷ xs) x y (suc i) h = elim (get_elem?-append_last xs x y i h) [
  | inl k ↦ inl k
  | inr (p, q) ↦ inr (omega arith, q)
]

module _ (f : LogFile Command) (o : Ord Key) where
  -- No tree of the list stands in front of `k` by its key, and those before place `i` stand behind it.
  abbrev pub Ahead : Key → ℕ → List (TreeCursor f) → Type 0
  Ahead k i trees =
      (j : ℕ) (u : TreeCursor f) (k' : Key) (addr : Address)
      → get_elem? trees j ≡ some u
      → u.at.current ≡ some (k', addr)
      → (o.lt k' k ≡ false) × (j < i → o.lt k k' ≡ true)

  abbrev pub Best : List (TreeCursor f) → Option (Key × ℕ) → Type 0
  Best trees none = (j : ℕ) (u : TreeCursor f) → get_elem? trees j ≡ some u → u.at.current ≡ none
  Best trees (some (k, i)) =
      ((t : TreeCursor f) × (addr : Address) × (get_elem? trees i ≡ some t)
        × (t.at.current ≡ some (k, addr)))
      × Ahead k i trees

  -- The tree behind the others, by its own entry.
  module _ (done : List (TreeCursor f)) (t : TreeCursor f) where
    closed :
        (best : Option (Key × ℕ))
        → t.at.current ≡ none
        → Best done best
        → Best (done ++ t ∷ []) best
    closed none e h = λ j u p. elim (get_elem?-append_last done t u j p) [
      | inl before ↦ h j u before
      | inr (at, same) ↦ rw same e
    ]
    closed (some (k, i)) e h =
        let ((s, addr, here, entry), ahead) = h in
        (
          (s, addr, get_elem?-append_left i done (t ∷ []) s here, entry),
          λ j u k' addr' p q. elim (get_elem?-append_last done t u j p) [
            | inl before ↦ ahead j u k' addr' before q
            | inr (at, same) ↦ absurd (cc)
          ],
        )

    module _ (k : Key) (addr : Address) (e : t.at.current ≡ some (k, addr)) where
      -- The new key is taken.
      taken : Ahead k (length done) done → Best (done ++ t ∷ []) (some (k, length done))
      taken ahead = (
        (t, addr, get_elem?-append_self done t, e),
        λ j u k' addr' p q. elim (get_elem?-append_last done t u j p) [
          | inl before ↦ ahead j u k' addr' before q
          | inr (at, same) ↦
              let key_same : k' ≡ k = cc in
              (rw key_same (o.lt_irrefl k), λ less. absurd (omega arith))
        ],
      )

      -- The old key is kept.
      kept :
          (old : Key) (i : ℕ)
          → o.lt k old ≡ false
          → Best done (some (old, i))
          → Best (done ++ t ∷ []) (some (old, i))
      kept old i worse h =
          let ((s, addr, here, entry), ahead) = h in
          (
            (s, addr, get_elem?-append_left i done (t ∷ []) s here, entry),
            λ j u k' addr' p q. elim (get_elem?-append_last done t u j p) [
              | inl before ↦ ahead j u k' addr' before q
              | inr (at, same) ↦
                  let key_same : k' ≡ k = cc in
                  (rw key_same worse, λ less. absurd (omega (arith, get_elem?-lt i done s here)))
            ],
          )

      -- A key before the old one is before all.
      passes :
          (old : Key) (i : ℕ) → o.lt k old ≡ true → Ahead old i done → Ahead k (length done) done
      passes old i better ahead j u k' addr' p q =
          let behind = (ahead j u k' addr' p q).0 in
          let after : o.lt k k' ≡ true = elim (Bool-cases (o.eq k' old)) [
            | inl same ↦ rw ((o.eq_iff k' old).0 same) better
            | inr other ↦ o.lt_trans k old k' better (o.lt_total k' old behind other)
          ] in
          (
            elim (Bool-cases (o.lt k' k)) [
              | inl back ↦ absurd (ground (arith, o.lt_trans k' k k' back after, o.lt_irrefl k'))
              | inr right ↦ right
            ],
            λ less. after,
          )

  offer-none :
      (best : Option (Key × ℕ)) (n : ℕ) (t : TreeCursor f)
      → t.at.current ≡ none
      → offer f o.lt best n t ≡ best
  unfolding offer
  offer-none best n t e = ground arith

  offer-some :
      (best : Option (Key × ℕ)) (n : ℕ) (t : TreeCursor f) (k : Key) (addr : Address)
      → t.at.current ≡ some (k, addr)
      → offer f o.lt best n t ≡ keep_better f o.lt best k n
  unfolding offer
  offer-some best n t k addr e = ground arith

  offer-Best :
      (done : List (TreeCursor f)) (best : Option (Key × ℕ)) (t : TreeCursor f)
      → Best done best
      → Best (done ++ t ∷ []) (offer f o.lt best (length done) t)
  unfolding keep_better
  offer-Best done best t h = elim (Option-cases t.at.current) [
    | inl e ↦ rw (offer-none best (length done) t e) (closed done t best e h)
    | inr ((k, addr), e) ↦ rw (offer-some best (length done) t k addr e) (by_key k addr e best h)
  ]
    where
      by_key :
          (k : Key) (addr : Address)
          → t.at.current ≡ some (k, addr)
          → (best : Option (Key × ℕ)) → Best done best
          → Best (done ++ t ∷ []) (keep_better f o.lt best k (length done))
      by_key k addr e none h =
          taken done t k addr e (λ j u k' addr' p q. absurd (ground (arith, h j u p)))
      by_key k addr e (some (old, i)) h = elim (Bool-cases (o.lt k old)) [
        | inl better ↦ rw better (taken done t k addr e (passes done t k addr e old i better h.1))
        | inr worse ↦ rw worse (kept done t k addr e old i worse h)
      ]

  pub seek_all-Best :
      (seek : TreeCursor f → TreeCursor f) (done trees : List (TreeCursor f))
      (best : Option (Key × ℕ))
      → Best done best
      → Best (done ++ map seek trees) (seek_all f seek o.lt (length done) best trees).1
  unfolding seek_all
  seek_all-Best seek done [] best h = rw (append-nil done) h
  seek_all-Best seek done (t ∷ trees) best h =
      let ih =
        seek_all-Best seek (done ++ seek t ∷ []) trees (offer f o.lt best (length done) (seek t))
          (offer-Best done best (seek t) h) in
      rw (← append_assoc done (seek t ∷ []) (map seek trees)) (
        subst
          (λ n.
            Best ((done ++ seek t ∷ []) ++ map seek trees)
              (seek_all f seek o.lt n (offer f o.lt best (length done) (seek t)) trees).1)
          (length-append done (seek t ∷ [])) ih)

  pub seek_all-map :
      (seek : TreeCursor f → TreeCursor f) (n : ℕ) (trees : List (TreeCursor f))
      (best : Option (Key × ℕ))
      → (seek_all f seek o.lt n best trees).0 ≡ map seek trees
  unfolding seek_all
  seek_all-map seek n [] best = refl
  seek_all-map seek n (t ∷ trees) best =
      ap (◌∷◌ (seek t)) (seek_all-map seek (n + 1) trees (offer f o.lt best n (seek t)))
