-- ===== src/Examples/Tables.antt =====
-- Tables as lists of rows: an implementation of the interface to the database. The id of a new row
-- is one more than the number of rows, and a row whose id is taken is refused.
use gall_pr.Common.{
  ℕ, suc, ◌≡◌, refl, sym, ap, subst, ◌∙◌, inl, inr, Bool, not, ◌&&◌, Option, none, some, List, [],
  ◌∷◌, ◌++◌, length, arith, ◌==◌, is_some, if◌then◌else◌, Bool-cases, some_eq,
}
use gall_pr.Common.Rows.{first, keep, discard, change, count, put, by_key}
use gall_pr.Common.Repository.{Repository}

module _ {Row : Type 0} (key : Row → ℕ) where
  -- The row gets the id that was meant for it, and no other row has that id.
  abbrev pub is_fresh : ℕ → Row → List Row → Bool
  is_fresh n r t = (key r == n) && not (is_some (by_key key n t))

  abbrev pub insert_row : (ℕ → Row) → List Row → Option (Row × List Row)
  insert_row mk t =
      let n = suc (length t) in if is_fresh n (mk n) t then some (mk n, t ++ mk n ∷ []) else none

  pub insert_row_lem :
      (mk : ℕ → Row) (t t' : List Row) (r : Row)
      → insert_row mk t ≡ some (r, t')
      → (t' ≡ t ++ r ∷ []) × (r ≡ mk (key r)) × (by_key key (key r) t ≡ none)
  insert_row_lem mk t t' r h =
      elim (Bool-cases (is_fresh (suc (length t)) (mk (suc (length t))) t)) [
        | inl e ↦
            let h' : some (mk (suc (length t)), t ++ mk (suc (length t)) ∷ []) ≡ some (r, t') =
              rw e at h in
            let same = ap (λ (x : Row × List Row). x.0) (some_eq h') in
            let id : key (mk (suc (length t))) ≡ suc (length t) = ground (arith, e) in
            let free : by_key key (suc (length t)) t ≡ none = ground (arith, e) in
            let at : key r ≡ suc (length t) = ap key (sym same) ∙ id in
            let rows = ap (λ (x : Row × List Row). x.1) (some_eq h') in
            (
              subst (λ x. t' ≡ t ++ x ∷ []) same (sym rows),
              subst (λ n. r ≡ mk n) (sym at) (sym same),
              subst (λ n. by_key key n t ≡ none) (sym at) free,
            )
        | inr e ↦ absurd (ground (arith, e, h))
      ]

  abbrev pub list_repository : Repository key
  list_repository = record {
    Table = List Row;
    rows = λ t. t;
    find_one = first;
    find = keep;
    count_where = count;
    save = put key;
    insert = insert_row;
    update = change;
    delete = discard;
    find_one_lem = λ w t. refl;
    find_lem = λ w t. refl;
    count_where_lem = λ w t. refl;
    rows-save = λ r t. refl;
    rows-insert = insert_row_lem;
    rows-update = λ w f t. refl;
    rows-delete = λ w t. refl;
  }
