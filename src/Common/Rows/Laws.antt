-- ===== src/Common/Rows/Laws.antt =====
-- Sums, keys and predicates over the rows of a table that a statement has changed.
use Prim.Native.Nat.{ℕ, ◌+◌}
use mathlib.Core.Path.{◌≡◌, refl, ap, subst}
use mathlib.Core.Logic.{inl, inr}
use mathlib.Core.Bool.{Bool, true, false}
use mathlib.Core.Option.{none, some}
use mathlib.Core.List.{List, [], ◌∷◌, ◌++◌, map}
use native.Mathlib.Omega.{arith}
use gall_pr.Common.Tests.{◌==◌, Bool-cases, some_eq}
use gall_pr.Common.Lists.{sum_of, All, Absent, Distinct}
use gall_pr.Common.Rows.{first, by_key, put, discard, change, at_key}

module _ {A : Type 0} (key : A → ℕ) where
  -- Saving a row changes a sum by that row alone.
  pub sum_of-put :
      (f : A → ℕ) (r old : A) (xs : List A)
      → by_key key (key r) xs ≡ some old
      → sum_of f (put key r xs) + f old ≡ sum_of f xs + f r
  unfolding by_key put
  sum_of-put f r old [] h = cc
  sum_of-put f r old (x ∷ xs) h = elim (Bool-cases (key x == key r)) [
    | inl same ↦
        let e : some x ≡ some old = rw same at h in rw same (ground (arith, ap f (some_eq e)))
    | inr other ↦
        let rest : by_key key (key r) xs ≡ some old = rw other at h in
        rw other (omega (arith, sum_of-put f r old xs rest))
  ]

  pub map-put :
      (r old : A) (xs : List A)
      → by_key key (key r) xs ≡ some old
      → map key (put key r xs) ≡ map key xs
  unfolding by_key put
  map-put r old [] h = cc
  map-put r old (x ∷ xs) h = elim (Bool-cases (key x == key r)) [
    | inl same ↦ let e : key x ≡ key r = ground arith in rw same (ground (arith, e))
    | inr other ↦
        let rest : by_key key (key r) xs ≡ some old = rw other at h in
        rw other (ap (λ ns. key x ∷ ns) (map-put r old xs rest))
  ]

  pub All-put : (P : A → Type 0) (r : A) (xs : List A) → All P xs → P r → All P (put key r xs)
  unfolding put
  All-put P r [] h p = (p, tt)
  All-put P r (x ∷ xs) (q, h) p = elim (Bool-cases (key x == key r)) [
    | inl same ↦ rw same (p, h)
    | inr other ↦ rw other (q, All-put P r xs h p)
  ]

  pub All-by_key :
      (P : A → Type 0) (k : ℕ) (xs : List A) (r : A) → All P xs → by_key key k xs ≡ some r → P r
  unfolding by_key
  All-by_key P k [] r h e = cc
  All-by_key P k (x ∷ xs) r (p, h) e = elim (Bool-cases (key x == k)) [
    | inl same ↦ let e' : some x ≡ some r = rw same at e in let e'' : x ≡ r = cc in rw (← e'') p
    | inr other ↦ let rest : by_key key k xs ≡ some r = rw other at e in All-by_key P k xs r h rest
  ]

  discard-Absent : (k : ℕ) (xs : List A) → Absent k (map key xs) → discard (at_key key k) xs ≡ xs
  unfolding discard
  discard-Absent k [] h = refl
  discard-Absent k (x ∷ xs) (ne, h) = rw ne (ap (λ ys. x ∷ ys) (discard-Absent k xs h))

  -- Deleting the one row of a key takes that row out of a sum.
  pub sum_of-discard :
      (f : A → ℕ) (k : ℕ) (old : A) (xs : List A)
      → Distinct (map key xs)
      → by_key key k xs ≡ some old
      → sum_of f (discard (at_key key k) xs) + f old ≡ sum_of f xs
  unfolding by_key discard
  sum_of-discard f k old [] d h = cc
  sum_of-discard f k old (x ∷ xs) (alone, d) h = elim (Bool-cases (key x == k)) [
    | inl same ↦
        let e : some x ≡ some old = rw same at h in
        let i : key x ≡ k = ground arith in
        let absent : Absent k (map key xs) = rw i at alone in
        rw same
          (ground (arith, ap f (some_eq e), ap (λ ys. sum_of f ys) (discard-Absent k xs absent)))
    | inr other ↦
        let rest : by_key key k xs ≡ some old = rw other at h in
        rw other (omega (arith, sum_of-discard f k old xs d rest))
  ]

  Absent-discard :
      (w : A → Bool) (k : ℕ) (xs : List A)
      → Absent k (map key xs)
      → Absent k (map key (discard w xs))
  unfolding discard
  Absent-discard w k [] h = tt
  Absent-discard w k (x ∷ xs) (ne, h) = elim (Bool-cases (w x)) [
    | inl gone ↦ rw gone (Absent-discard w k xs h)
    | inr stays ↦ rw stays (ne, Absent-discard w k xs h)
  ]

  pub Distinct-discard :
      (w : A → Bool) (xs : List A) → Distinct (map key xs) → Distinct (map key (discard w xs))
  unfolding discard
  Distinct-discard w [] d = tt
  Distinct-discard w (x ∷ xs) (alone, d) = elim (Bool-cases (w x)) [
    | inl gone ↦ rw gone (Distinct-discard w xs d)
    | inr stays ↦ rw stays (Absent-discard w (key x) xs alone, Distinct-discard w xs d)
  ]

  Absent-of_none : (k : ℕ) (xs : List A) → by_key key k xs ≡ none → Absent k (map key xs)
  unfolding by_key
  Absent-of_none k [] h = tt
  Absent-of_none k (x ∷ xs) h = elim (Bool-cases (key x == k)) [
    | inl same ↦ let e : some x ≡ none = rw same at h in cc
    | inr other ↦
        let rest : by_key key k xs ≡ none = rw other at h in (other, Absent-of_none k xs rest)
  ]

  Absent-snoc :
      (k : ℕ) (xs : List A) (r : A)
      → Absent k (map key xs)
      → (key r == k) ≡ false
      → Absent k (map key (xs ++ r ∷ []))
  Absent-snoc k [] r h ne = (ne, tt)
  Absent-snoc k (x ∷ xs) r (p, h) ne = (p, Absent-snoc k xs r h ne)

  -- A row under a fresh key keeps the keys distinct.
  pub Distinct-snoc :
      (xs : List A) (r : A)
      → Distinct (map key xs)
      → by_key key (key r) xs ≡ none
      → Distinct (map key (xs ++ r ∷ []))
  Distinct-snoc xs r d h = go xs d (Absent-of_none (key r) xs h)
    where
      go :
          (ys : List A)
          → Distinct (map key ys)
          → Absent (key r) (map key ys)
          → Distinct (map key (ys ++ r ∷ []))
      go [] d a = (tt, tt)
      go (y ∷ ys) (alone, d) (ne, a) = (Absent-snoc (key y) ys r alone (ground arith), go ys d a)

  first-Absent :
      (w : A → Bool) (k : ℕ) (xs : List A) (r : A)
      → Absent k (map key xs)
      → first w xs ≡ some r
      → (key r == k) ≡ false
  unfolding first
  first-Absent w k [] r h e = cc
  first-Absent w k (x ∷ xs) r (ne, h) e = elim (Bool-cases (w x)) [
    | inl hit ↦
        let same : some x ≡ some r = rw hit at e in
        subst (λ y. (key y == k) ≡ false) (some_eq same) ne
    | inr miss ↦ let rest : first w xs ≡ some r = rw miss at e in first-Absent w k xs r h rest
  ]

  -- A row that some condition selects is the row of its key.
  pub by_key-first :
      (w : A → Bool) (xs : List A) (r : A)
      → Distinct (map key xs)
      → first w xs ≡ some r
      → by_key key (key r) xs ≡ some r
  unfolding by_key first
  by_key-first w [] r d e = cc
  by_key-first w (x ∷ xs) r (alone, d) e = elim (Bool-cases (w x)) [
    | inl hit ↦
        let same : some x ≡ some r = rw hit at e in
        subst (λ y. first (at_key key (key y)) (x ∷ xs) ≡ some y) (some_eq same) (ground arith)
    | inr miss ↦
        let rest : first w xs ≡ some r = rw miss at e in
        let ne = first-Absent w (key x) xs r alone rest in
        let other : (key x == key r) ≡ false = ground arith in rw other (by_key-first w xs r d rest)
  ]

module _ {A : Type 0} (w : A → Bool) where
  pub sum_of-change :
      (f : A → ℕ) (g : A → A) (xs : List A)
      → ((x : A) → f (g x) ≡ f x)
      → sum_of f (change w g xs) ≡ sum_of f xs
  unfolding change
  sum_of-change f g [] same = refl
  sum_of-change f g (x ∷ xs) same = elim (Bool-cases (w x)) [
    | inl hit ↦ rw hit (omega (arith, same x, sum_of-change f g xs same))
    | inr miss ↦ rw miss (omega (arith, sum_of-change f g xs same))
  ]

  pub map-change :
      (f : A → ℕ) (g : A → A) (xs : List A)
      → ((x : A) → f (g x) ≡ f x)
      → map f (change w g xs) ≡ map f xs
  unfolding change
  map-change f g [] same = refl
  map-change f g (x ∷ xs) same = elim (Bool-cases (w x)) [
    | inl hit ↦ rw (hit, same x) (ap (λ ns. f x ∷ ns) (map-change f g xs same))
    | inr miss ↦ rw miss (ap (λ ns. f x ∷ ns) (map-change f g xs same))
  ]

  pub All-change :
      (P : A → Type 0) (g : A → A) (xs : List A)
      → ((x : A) → P x → P (g x))
      → All P xs
      → All P (change w g xs)
  unfolding change
  All-change P g [] keeps h = tt
  All-change P g (x ∷ xs) keeps (p, h) = elim (Bool-cases (w x)) [
    | inl hit ↦ rw hit (keeps x p, All-change P g xs keeps h)
    | inr miss ↦ rw miss (p, All-change P g xs keeps h)
  ]

  -- The rows that are not selected are left, so only the others have to keep the predicate.
  pub All-change_selected :
      (P : A → Type 0) (g : A → A) (xs : List A)
      → ((x : A) → w x ≡ true → P x → P (g x))
      → All P xs
      → All P (change w g xs)
  unfolding change
  All-change_selected P g [] keeps h = tt
  All-change_selected P g (x ∷ xs) keeps (p, h) = elim (Bool-cases (w x)) [
    | inl hit ↦ rw hit (keeps x hit p, All-change_selected P g xs keeps h)
    | inr miss ↦ rw miss (p, All-change_selected P g xs keeps h)
  ]

  -- Every row is judged anew, the selected ones after the change.
  pub All-change_each :
      (P Q : A → Type 0) (g : A → A) (xs : List A)
      → ((x : A) → w x ≡ true → P x → Q (g x))
      → ((x : A) → w x ≡ false → P x → Q x)
      → All P xs
      → All Q (change w g xs)
  unfolding change
  All-change_each P Q g [] hits misses h = tt
  All-change_each P Q g (x ∷ xs) hits misses (p, h) = elim (Bool-cases (w x)) [
    | inl hit ↦ rw hit (hits x hit p, All-change_each P Q g xs hits misses h)
    | inr miss ↦ rw miss (misses x miss p, All-change_each P Q g xs hits misses h)
  ]

  pub All-discard : (P : A → Type 0) (xs : List A) → All P xs → All P (discard w xs)
  unfolding discard
  All-discard P [] h = tt
  All-discard P (x ∷ xs) (p, h) = elim (Bool-cases (w x)) [
    | inl gone ↦ rw gone (All-discard P xs h)
    | inr stays ↦ rw stays (p, All-discard P xs h)
  ]
