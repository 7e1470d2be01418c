-- ===== src/Imp/Loops.antt =====
-- imp.rs: what every round of a loop over the trees keeps, the loop keeps.
use block_rust.Base.{Option, none, some, List, [], ◌∷◌, Error, Outcome, ok, err, panic}
use block_rust.Base.Exec.{Exec, continue, ◌>>=◌}
use block_rust.Db.{Name}
use block_rust.Imp.{attempt, each, each_attempt, ready_trees}

-- Whatever a method returns, it leaves a state with the property.
abbrev pub Keeps {ℓ} : {S A : Type 0} → (S → Type ℓ) → Exec S A → Type ℓ
Keeps P m = (s : _) → P s → P (m s).1

module _ {ℓ} {S : Type 0} (P : S → Type ℓ) where
  continue-Keeps :
      {A B : Type 0} (r : Outcome A) (next : A → Exec S B)
      → ((a : A) → Keeps P (next a))
      → Keeps P (continue r next)
  continue-Keeps (ok a) next k s h = k a s h
  continue-Keeps (err e) next k s h = h
  continue-Keeps panic next k s h = h

  pub bind-Keeps :
      {A B : Type 0} (m : Exec S A) (next : A → Exec S B)
      → Keeps P m
      → ((a : A) → Keeps P (next a))
      → Keeps P (m >>= next)
  bind-Keeps m next h k s p = continue-Keeps (m s).0 next k (m s).1 (h s p)

  attempt-Keeps : (m : Exec S (Unit {0})) → Keeps P m → Keeps P (attempt m)
  attempt-Keeps m h s p = go (m s).0 (m s).1 (h s p)
    where
      go :
          (r : Outcome (Unit {0})) (t : S)
          → P t
          → P
              (elim r as (λ x. Outcome (Option Error) × S) [
                | ok u ↦ (ok none, t)
                | err e ↦ (ok (some e), t)
                | panic ↦ (panic, t)
              ]).1
      go (ok u) t p = p
      go (err e) t p = p
      go panic t p = p

  pub each-Keeps :
      (body : Name → Exec S (Unit {0})) (trees : List Name)
      → ((tree : Name) → Keeps P (body tree))
      → Keeps P (each body trees)
  unfolding each
  each-Keeps body [] h s p = p
  each-Keeps body (tree ∷ trees) h s p =
      bind-Keeps (body tree) (λ u. each body trees) (h tree) (λ u. each-Keeps body trees h) s p

  pub each_attempt-Keeps :
      (body : Name → Exec S (Unit {0})) (trees : List Name)
      → ((tree : Name) → Keeps P (body tree))
      → Keeps P (each_attempt body trees)
  unfolding each_attempt
  each_attempt-Keeps body [] h s p = p
  each_attempt-Keeps body (tree ∷ trees) h s p =
      bind-Keeps (attempt (body tree)) (λ e. each_attempt body trees)
        (attempt-Keeps (body tree) (h tree)) (λ e. each_attempt-Keeps body trees h) s p

  pub ready_trees-Keeps :
      (ready abort : Name → Exec S (Unit {0})) (error : Option Error) (trees : List Name)
      → ((tree : Name) → Keeps P (ready tree))
      → ((tree : Name) → Keeps P (abort tree))
      → Keeps P (ready_trees ready abort error trees)
  unfolding ready_trees
  ready_trees-Keeps ready abort error [] h k s p = p
  ready_trees-Keeps ready abort none (tree ∷ trees) h k s p =
      bind-Keeps (attempt (ready tree)) (λ e. ready_trees ready abort e trees)
        (attempt-Keeps (ready tree) (h tree)) (λ e. ready_trees-Keeps ready abort e trees h k) s p
  ready_trees-Keeps ready abort (some e) (tree ∷ trees) h k s p =
      bind-Keeps (attempt (abort tree)) (λ r. ready_trees ready abort (some e) trees)
        (attempt-Keeps (abort tree) (k tree))
        (λ r. ready_trees-Keeps ready abort (some e) trees h k) s p
