-- ===== src/Common/Rows/Counts.antt =====
-- How many rows a condition selects after a statement.
use Prim.Native.Nat.{ℕ, ◌+◌}
use mathlib.Core.Path.{◌≡◌, refl}
use mathlib.Core.Logic.{inl, inr}
use mathlib.Core.Bool.{Bool}
use mathlib.Core.Option.{some}
use mathlib.Core.List.{List, [], ◌∷◌, ◌++◌, map}
use native.Mathlib.Omega.{arith}
use gall_pr.Common.Tests.{ltb, if◌then◌else◌, is_some, Bool-cases}
use gall_pr.Common.Lists.{sum_of, Distinct}
use gall_pr.Common.Rows.{first, by_key, keep, discard, change, at_key, count, put}
use gall_pr.Common.Rows.Laws.{sum_of-discard, sum_of-put}

module _ {A : Type 0} where
  count-eq-sum_of :
      (w : A → Bool) (xs : List A) → count w xs ≡ sum_of (λ x. if w x then 1 else 0) xs
  unfolding count
  count-eq-sum_of w [] = refl
  count-eq-sum_of w (x ∷ xs) = ground (arith, count-eq-sum_of w xs)

  -- One list of rows after another.
  pub count-append : (w : A → Bool) (xs ys : List A) → count w (xs ++ ys) ≡ count w xs + count w ys
  unfolding count
  count-append w [] ys = omega arith
  count-append w (x ∷ xs) ys = ground (arith, count-append w xs ys)

  -- What a deletion takes away is what it selects.
  pub count-discard :
      (w v : A → Bool) (xs : List A) → count w (discard v xs) + count w (keep v xs) ≡ count w xs
  unfolding count discard keep
  count-discard w v [] = omega arith
  count-discard w v (x ∷ xs) = elim (Bool-cases (v x)) [
    | inl gone ↦ rw (gone, discard, keep) (ground (arith, count-discard w v xs))
    | inr stays ↦ rw (stays, discard, keep) (ground (arith, count-discard w v xs))
  ]

  -- A row deleted by its key is one row, where keys are distinct.
  pub count-discard_key :
      (key : A → ℕ) (w : A → Bool) (k : ℕ) (old : A) (xs : List A)
      → Distinct (map key xs)
      → by_key key k xs ≡ some old
      → count w (discard (at_key key k) xs) + (if w old then 1 else 0) ≡ count w xs
  count-discard_key key w k old xs d h = omega (
    arith,
    count-eq-sum_of w (discard (at_key key k) xs),
    count-eq-sum_of w xs,
    sum_of-discard key (λ x. if w x then 1 else 0) k old xs d h,
  )

  -- A row saved under its key takes the place of the one that was there.
  pub count-put :
      (key : A → ℕ) (w : A → Bool) (r old : A) (xs : List A)
      → by_key key (key r) xs ≡ some old
      → count w (put key r xs) + (if w old then 1 else 0) ≡ count w xs + (if w r then 1 else 0)
  count-put key w r old xs h = omega (
    arith,
    count-eq-sum_of w (put key r xs),
    count-eq-sum_of w xs,
    sum_of-put key (λ x. if w x then 1 else 0) r old xs h,
  )

  -- A change that keeps the condition keeps the count.
  pub count-change :
      (w v : A → Bool) (g : A → A) (xs : List A)
      → ((x : A) → w (g x) ≡ w x)
      → count w (change v g xs) ≡ count w xs
  unfolding count change
  count-change w v g [] same = refl
  count-change w v g (x ∷ xs) same = elim (Bool-cases (v x)) [
    | inl hit ↦ rw (hit, change) (ground (arith, same x, count-change w v g xs same))
    | inr miss ↦ rw (miss, change) (ground (arith, count-change w v g xs same))
  ]

  -- Nothing is found where nothing is counted, and something where something is.
  pub first-count : (w : A → Bool) (xs : List A) → is_some (first w xs) ≡ ltb 0 (count w xs)
  unfolding first count
  first-count w [] = refl
  first-count w (x ∷ xs) = ground (arith, first-count w xs)

  -- Nothing that was deleted is counted.
  pub count-discard_self : (w : A → Bool) (xs : List A) → count w (discard w xs) ≡ 0
  unfolding count discard
  count-discard_self w [] = refl
  count-discard_self w (x ∷ xs) = elim (Bool-cases (w x)) [
    | inl gone ↦ rw (gone, discard) (count-discard_self w xs)
    | inr stays ↦ rw (stays, discard, count) (rw stays (count-discard_self w xs))
  ]
