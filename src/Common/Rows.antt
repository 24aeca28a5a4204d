-- ===== src/Common/Rows.antt =====
-- The rows of a table as a list: what a query selects, and what a statement leaves.
pub mod Laws
pub mod Counts
use Prim.Native.Nat.{ℕ, suc, ◌+◌}
use mathlib.Core.Path.{◌≡◌, refl}
use mathlib.Core.Bool.{Bool, true}
use mathlib.Core.Option.{Option, none, some}
use mathlib.Core.List.{List, [], ◌∷◌}
use native.Mathlib.Omega.{arith}
use mathlib.Core.Logic.{inl, inr}
use gall_pr.Common.Lists.{length}
use gall_pr.Common.Tests.{◌==◌, if◌then◌else◌, Bool-cases}

module _ {A : Type 0} where
  -- The first row that meets the condition.
  unfoldable pub first : (A → Bool) → List A → Option A
  first w [] = none
  first w (x ∷ xs) = if w x then some x else first w xs

  -- The rows that meet it.
  unfoldable pub keep : (A → Bool) → List A → List A
  keep w [] = []
  keep w (x ∷ xs) = if w x then x ∷ keep w xs else keep w xs

  -- The rows that do not.
  unfoldable pub discard : (A → Bool) → List A → List A
  discard w [] = []
  discard w (x ∷ xs) = if w x then discard w xs else x ∷ discard w xs

  -- Every row that meets it, changed.
  unfoldable pub change : (A → Bool) → (A → A) → List A → List A
  change w f [] = []
  change w f (x ∷ xs) = (if w x then f x else x) ∷ change w f xs

  unfoldable pub count : (A → Bool) → List A → ℕ
  count w [] = 0
  count w (x ∷ xs) = if w x then suc (count w xs) else count w xs

  -- The row under its key, in place of the one that was there, else at the end.
  unfoldable pub put : (A → ℕ) → A → List A → List A
  put key r [] = r ∷ []
  put key r (x ∷ xs) = if key x == key r then r ∷ xs else x ∷ put key r xs

  -- `{ where: { id } }`
  abbrev pub at_key : (A → ℕ) → ℕ → A → Bool
  at_key key k r = key r == k

  unfoldable pub by_key : (A → ℕ) → ℕ → List A → Option A
  unfolding first
  by_key key k xs = first (at_key key k) xs

  pub first-eq-by_key :
      (key : A → ℕ) (k : ℕ) (xs : List A) → first (at_key key k) xs ≡ by_key key k xs
  unfolding by_key
  first-eq-by_key key k xs = refl

  pub by_key-put :
      (key : A → ℕ) (k : ℕ) (r : A) (xs : List A)
      → by_key key k (put key r xs) ≡ (if key r == k then some r else by_key key k xs)
  unfolding by_key put
  by_key-put key k r [] = refl
  by_key-put key k r (x ∷ xs) = ground (arith, by_key-put key k r xs)

  pub by_key-key :
      (key : A → ℕ) (k : ℕ) (xs : List A) {r : A} → by_key key k xs ≡ some r → key r ≡ k
  unfolding by_key
  by_key-key key k [] h = cc
  by_key-key key k (x ∷ xs) {r} h = ground (arith, by_key-key key k xs {r = r})

  pub first_meets : (w : A → Bool) (xs : List A) {r : A} → first w xs ≡ some r → w r ≡ true
  unfolding first
  first_meets w [] h = cc
  first_meets w (x ∷ xs) {r} h = ground (arith, first_meets w xs {r = r})

module _ {A : Type 0} (w : A → Bool) where
  -- Nothing that was deleted is selected any more.
  pub keep-discard : (xs : List A) → keep w (discard w xs) ≡ []
  unfolding keep discard
  keep-discard [] = refl
  keep-discard (x ∷ xs) = elim (Bool-cases (w x)) [
    | inl yes' ↦ rw yes' (keep-discard xs)
    | inr no' ↦ rw (no', keep) (rw no' (keep-discard xs))
  ]

  -- What is selected, and what is not, are the whole table.
  pub length-keep-discard : (xs : List A) → length (keep w xs) + length (discard w xs) ≡ length xs
  unfolding keep discard
  length-keep-discard [] = omega arith
  length-keep-discard (x ∷ xs) = ground (arith, length-keep-discard xs)
