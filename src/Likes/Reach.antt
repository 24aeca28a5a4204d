-- ===== src/Likes/Reach.antt =====
-- The counters of likes over any history of requests.
use gall_pr.Common.{ℕ, ◌≡◌, Bool, ok}
use gall_pr.Likes.{LikesDatabase, LikesTables, toggle_like, forget_likes}
use gall_pr.Likes.Laws.{IsCounted, toggle_like-IsCounted, forget_likes-IsCounted}

module _ (db : LikesDatabase) where
  -- Hearts that customers press, and accounts that are deleted.
  pub data Reach (s : LikesTables db) : LikesTables db → Type 0 where
    start : Reach s s
    toggled :
        (user painting n : ℕ) (liked : Bool) (t u : LikesTables db)
        → Reach s t
        → toggle_like db user painting t ≡ ok (liked, n, u)
        → Reach s u
    forgotten : (user : ℕ) (t : LikesTables db) → Reach s t → Reach s (forget_likes db user t)

  -- After any history of hearts that are pressed and accounts whose likes are removed, every
  -- painting shows the number of its likes, if it did at the start and the ids of likes were
  -- distinct.
  pub Reach-IsCounted : {s t : LikesTables db} → IsCounted db s → Reach s t → IsCounted db t
  Reach-IsCounted c start = c
  Reach-IsCounted c (toggled user painting n liked t u before h) =
      toggle_like-IsCounted db user painting n liked t u (Reach-IsCounted c before) h
  Reach-IsCounted c (forgotten user t before) =
      forget_likes-IsCounted db user t (Reach-IsCounted c before)
