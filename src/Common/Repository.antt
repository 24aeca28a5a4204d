-- ===== src/Common/Repository.antt =====
-- What the services rely on in TypeORM: a repository over one table. The table is a parameter,
-- read through its rows; the laws say what each call selects and what it leaves.
use Prim.Native.Nat.{ℕ}
use mathlib.Core.Path.{◌≡◌}
use mathlib.Core.Bool.{Bool}
use mathlib.Core.Option.{Option, none, some}
use mathlib.Core.List.{List, [], ◌∷◌, ◌++◌}
use gall_pr.Common.Rows.{first, keep, discard, change, count, put, by_key}

pub record Repository {Row : Type 0} (key : Row → ℕ) : Type 1 where
  pub Table : Type 0
  pub rows : Table → List Row
  -- `findOne({ where })`, `find({ where })`
  pub find_one : (Row → Bool) → Table → Option Row
  pub find : (Row → Bool) → Table → List Row
  -- `count({ where })`, and what `update` and `delete` report as `affected`
  pub count_where : (Row → Bool) → Table → ℕ
  -- `save` of an entity that was read, by its primary key
  pub save : Row → Table → Table
  -- `save` of an entity that was created: the database gives the id, and a unique index may
  -- refuse the row
  pub insert : (ℕ → Row) → Table → Option (Row × Table)
  -- `update(where, changes)`, `delete(where)`
  pub update : (Row → Bool) → (Row → Row) → Table → Table
  pub delete : (Row → Bool) → Table → Table
  pub find_one_lem : (w : Row → Bool) (t : Table) → find_one w t ≡ first w (rows t)
  pub find_lem : (w : Row → Bool) (t : Table) → find w t ≡ keep w (rows t)
  pub count_where_lem : (w : Row → Bool) (t : Table) → count_where w t ≡ count w (rows t)
  pub rows-save : (r : Row) (t : Table) → rows (save r t) ≡ put key r (rows t)
  pub rows-insert :
      (mk : ℕ → Row) (t t' : Table) (r : Row)
      → insert mk t ≡ some (r, t')
      → (rows t' ≡ rows t ++ r ∷ []) × (r ≡ mk (key r)) × (by_key key (key r) (rows t) ≡ none)
  pub rows-update :
      (w : Row → Bool) (f : Row → Row) (t : Table) → rows (update w f t) ≡ change w f (rows t)
  pub rows-delete : (w : Row → Bool) (t : Table) → rows (delete w t) ≡ discard w (rows t)
