-- ===== src/Likes.antt =====
-- backend/src/likes: which paintings a customer likes, and the counter that the catalogue sorts by.
pub mod Laws
pub mod Toggle
pub mod Reach
use gall_pr.Common.{
  ℕ, ◌+◌, ◌-◌, Bool, true, false, not, ◌&&◌, Option, none, some, List, [], ◌∷◌, map, not_found,
  crashed, Result, ok, err, ◌>>=◌, or_throw, ◌==◌, is_some, if◌then◌else◌,
}
use gall_pr.Common.Rows.{at_key}
use gall_pr.Common.Repository.{Repository}
use gall_pr.Orders.Entities.{Painting, painting_key}

-- backend/src/likes/entities/painting-like.entity.ts
pub record PaintingLike : Type 0 where
  pub id : ℕ
  pub user_id : ℕ
  pub painting_id : ℕ

abbrev pub like_key : PaintingLike → ℕ
like_key l = l.id

-- `{ userId, paintingId }`, `{ userId }`, `{ paintingId }`
abbrev pub is_like : ℕ → ℕ → PaintingLike → Bool
is_like user painting l = l.user_id == user && l.painting_id == painting

abbrev pub by_user : ℕ → PaintingLike → Bool
by_user user l = l.user_id == user

abbrev pub of_painting : ℕ → PaintingLike → Bool
of_painting painting l = l.painting_id == painting

-- `increment` and `decrement` by one.
abbrev pub liked_more : Painting → Painting
liked_more p = record p { likes_count = p.likes_count + 1 }

-- (The column goes below nought, where this stays at it: a counter that is the number of its likes
-- is never decremented there.)
abbrev pub liked_less : Painting → Painting
liked_less p = record p { likes_count = p.likes_count - 1 }

pub record LikesDatabase : Type 1 where
  pub paintings : Repository painting_key
  pub likes : Repository like_key

pub record LikesTables (db : LikesDatabase) : Type 0 where
  pub paintings : db.paintings.Table
  pub likes : db.likes.Table

abbrev pub count_of : Option Painting → ℕ
count_of none = 0
count_of (some p) = p.likes_count

module _ (db : LikesDatabase) where
  -- The transaction of `toggleLike`, on the like that is there. A like that the unique index
  -- refuses rolls the transaction back.
  unfoldable pub switch : ℕ → ℕ → Option PaintingLike → LikesTables db → Result (LikesTables db)
  switch user painting (some existing) s = ok (record {
    likes = db.likes.delete (at_key like_key existing.id) s.likes;
    paintings = db.paintings.update (at_key painting_key painting) liked_less s.paintings;
  })
  switch user painting none s = do
    (row, likes) ←
        or_throw
          (db.likes.insert (λ id. record { id = id; user_id = user; painting_id = painting })
            s.likes)
          (crashed "the like could not be inserted")
    ok (record {
      likes = likes;
      paintings = db.paintings.update (at_key painting_key painting) liked_more s.paintings;
    })

  -- `toggleLike`: whether the painting is liked now, its counter, and the tables.
  unfoldable pub toggle_like : ℕ → ℕ → LikesTables db → Result (Bool × ℕ × LikesTables db)
  toggle_like user painting s = do
    found ←
        or_throw (db.paintings.find_one (at_key painting_key painting) s.paintings)
          (not_found "Painting not found")
    let existing = db.likes.find_one (is_like user painting) s.likes
    s' ← switch user painting existing s
    ok (
      not (is_some existing),
      count_of (db.paintings.find_one (at_key painting_key painting) s'.paintings),
      s',
    )

  unfoldable pub get_my_liked_ids : ℕ → LikesTables db → List ℕ
  get_my_liked_ids user s =
      map (λ (l : PaintingLike). l.painting_id) (db.likes.find (by_user user) s.likes)

  abbrev found_in : List ℕ → db.paintings.Table → List Painting
  found_in [] t = []
  found_in (id ∷ ids) t =
      let rest = found_in ids t in
      elim (db.paintings.find_one (at_key painting_key id) t) [ none ↦ rest | some p ↦ p ∷ rest ]

  -- `getMyLikedPaintings`; `newest_first` is its ORDER BY.
  unfoldable pub get_my_liked_paintings :
      (List PaintingLike → List PaintingLike) → ℕ → LikesTables db → List Painting
  get_my_liked_paintings newest_first user s =
      found_in
        (map (λ (l : PaintingLike). l.painting_id)
          (newest_first (db.likes.find (by_user user) s.likes)))
        s.paintings

  -- The part of the removal of an account (`remove` of backend/src/users/users.service.ts) that
  -- concerns likes: the loop over the account's likes, and their deletion.
  unfoldable pub take_likes_off : List PaintingLike → db.paintings.Table → db.paintings.Table
  take_likes_off [] t = t
  take_likes_off (like ∷ likes) t =
      take_likes_off likes (db.paintings.update (at_key painting_key like.painting_id) liked_less t)

  unfoldable pub forget_likes : ℕ → LikesTables db → LikesTables db
  unfolding take_likes_off
  forget_likes user s = record {
    paintings = take_likes_off (db.likes.find (by_user user) s.likes) s.paintings;
    likes = db.likes.delete (by_user user) s.likes;
  }
