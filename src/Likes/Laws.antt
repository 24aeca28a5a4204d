-- ===== src/Likes/Laws.antt =====
-- The counter of likes is the number of likes.
use gall_pr.Common.{
  ℕ, ◌+◌, ◌≡◌, sym, ap, subst, Bool, Option, none, some, List, [], ◌∷◌, ◌++◌, map, ok, >>=-eq-ok,
  or_throw, or_throw-eq-ok, ok-injective, arith, All, All-mono, Distinct,
}
use gall_pr.Common.Rows.{first, by_key, discard, count, at_key, first_meets}
use gall_pr.Common.Rows.Laws.{All-change_each, Distinct-discard, Distinct-snoc, by_key-first}
use gall_pr.Common.Rows.Counts.{count-append, count-discard, count-discard_key}
use gall_pr.Orders.Entities.{Painting, painting_key}
use gall_pr.Likes.{
  PaintingLike, like_key, is_like, by_user, of_painting, liked_more, liked_less, LikesDatabase,
  LikesTables, switch, toggle_like, take_likes_off, forget_likes,
}

module _ (db : LikesDatabase) where
  abbrev likes_of : ℕ → LikesTables db → ℕ
  likes_of painting s = count (of_painting painting) (db.likes.rows s.likes)

  -- Every painting shows the number of its likes.
  pub record IsCounted (s : LikesTables db) : Type 0 where
    pub ids : Distinct (map like_key (db.likes.rows s.likes))
    pub counted :
        All (λ (p : Painting). p.likes_count ≡ likes_of p.id s) (db.paintings.rows s.paintings)

  -- A like less on its painting.
  less_lem :
      (s : LikesTables db) (l : PaintingLike)
      → by_key like_key l.id (db.likes.rows s.likes) ≡ some l
      → IsCounted s
      → IsCounted (record {
        likes = db.likes.delete (at_key like_key l.id) s.likes;
        paintings = db.paintings.update (at_key painting_key l.painting_id) liked_less s.paintings;
      })
  less_lem s l found c =
      let rows = db.likes.rows s.likes in
      let left = λ (k : ℕ). count-discard_key like_key (of_painting k) l.id l rows c.ids found in
      let gone = db.likes.rows-delete (at_key like_key l.id) s.likes in
      record {
        ids =
            subst (λ ls. Distinct (map like_key ls)) (sym gone)
              (Distinct-discard like_key (at_key like_key l.id) rows c.ids);
        counted =
            rw (db.paintings.rows-update _ _ s.paintings, gone)
              (All-change_each (at_key painting_key l.painting_id) _ _ liked_less
                (db.paintings.rows s.paintings) (λ x hit p. ground (arith, hit, p, left x.id))
                (λ x miss p. ground (arith, miss, p, left x.id)) c.counted);
      }

  -- A like more on its painting.
  more_lem :
      (s : LikesTables db) (l : PaintingLike) (t : db.likes.Table)
      → db.likes.rows t ≡ db.likes.rows s.likes ++ l ∷ []
      → by_key like_key l.id (db.likes.rows s.likes) ≡ none
      → IsCounted s
      → IsCounted (record {
        likes = t;
        paintings = db.paintings.update (at_key painting_key l.painting_id) liked_more s.paintings;
      })
  unfolding count
  more_lem s l t added fresh c =
      let rows = db.likes.rows s.likes in
      let more = λ (k : ℕ). count-append (of_painting k) rows (l ∷ []) in
      record {
        ids =
            subst (λ ls. Distinct (map like_key ls)) (sym added)
              (Distinct-snoc like_key rows l c.ids fresh);
        counted =
            rw (db.paintings.rows-update _ _ s.paintings, added)
              (All-change_each (at_key painting_key l.painting_id) _ _ liked_more
                (db.paintings.rows s.paintings) (λ x hit p. ground (arith, hit, p, more x.id))
                (λ x miss p. ground (arith, miss, p, more x.id)) c.counted);
      }

  switch-IsCounted :
      (user painting : ℕ) (existing : Option PaintingLike) (s s' : LikesTables db)
      → IsCounted s
      → first (is_like user painting) (db.likes.rows s.likes) ≡ existing
      → switch db user painting existing s ≡ ok s'
      → IsCounted s'
  unfolding switch
  switch-IsCounted user painting (some l) s s' c found h =
      let mine = first_meets (is_like user painting) (db.likes.rows s.likes) found in
      let about : l.painting_id ≡ painting = ground (arith, mine) in
      let key =
        by_key-first like_key (is_like user painting) (db.likes.rows s.likes) l c.ids found in
      subst IsCounted (ok-injective h) (
        subst
          (λ k. IsCounted (record {
            likes = db.likes.delete (at_key like_key l.id) s.likes;
            paintings = db.paintings.update (at_key painting_key k) liked_less s.paintings;
          }))
          about (less_lem s l key c))
  switch-IsCounted user painting none s s' c found h =
      let ((l, t), inserted, last) = >>=-eq-ok (or_throw (db.likes.insert _ s.likes) _) _ h in
      let (added, shape, fresh) =
        db.likes.rows-insert _ s.likes t l (or_throw-eq-ok _ _ inserted) in
      let about = ap (λ (x : PaintingLike). x.painting_id) shape in
      subst IsCounted (ok-injective last) (
        subst
          (λ k. IsCounted (record {
            likes = t;
            paintings = db.paintings.update (at_key painting_key k) liked_more s.paintings;
          }))
          about (more_lem s l t added fresh c))

  pub toggle_like-IsCounted :
      (user painting n : ℕ) (liked : Bool) (s s' : LikesTables db)
      → IsCounted s
      → toggle_like db user painting s ≡ ok (liked, n, s')
      → IsCounted s'
  unfolding toggle_like
  toggle_like-IsCounted user painting n liked s s' c h =
      let (p, found, h1) =
        >>=-eq-ok (or_throw (db.paintings.find_one (at_key painting_key painting) s.paintings) _) _
          h in
      let existing = db.likes.find_one (is_like user painting) s.likes in
      let (t, switched, last) = >>=-eq-ok (switch db user painting existing s) _ h1 in
      subst IsCounted (ap (λ (x : Bool × ℕ × LikesTables db). x.2) (ok-injective last)) (
        switch-IsCounted user painting existing s t c
          (sym (db.likes.find_one_lem (is_like user painting) s.likes)) switched)

  -- The loop over the likes of an account takes each off its painting.
  take_likes_off-counted :
      (f : ℕ → ℕ) (likes : List PaintingLike) (t : db.paintings.Table)
      → All
          (λ (p : Painting). p.likes_count ≡ f p.id + count (of_painting p.id) likes)
          (db.paintings.rows t)
      → All
          (λ (p : Painting). p.likes_count ≡ f p.id)
          (db.paintings.rows (take_likes_off db likes t))
  unfolding take_likes_off count
  take_likes_off-counted f [] t h = All-mono (db.paintings.rows t) (λ p e. omega (arith, e)) h
  take_likes_off-counted f (l ∷ likes) t h = take_likes_off-counted f likes _ (
      rw (db.paintings.rows-update _ _ t) (
        All-change_each (at_key painting_key l.painting_id) _ _ liked_less (db.paintings.rows t)
          (λ x hit p. ground (arith, hit, p)) (λ x miss p. ground (arith, miss, p)) h))

  pub forget_likes-IsCounted :
      (user : ℕ) (s : LikesTables db) → IsCounted s → IsCounted (forget_likes db user s)
  unfolding forget_likes
  forget_likes-IsCounted user s c =
      let rows = db.likes.rows s.likes in
      let gone = db.likes.rows-delete (by_user user) s.likes in
      record {
        ids =
            subst (λ ls. Distinct (map like_key ls)) (sym gone)
              (Distinct-discard like_key (by_user user) rows c.ids);
        counted = rw gone (
            take_likes_off-counted (λ k. count (of_painting k) (discard (by_user user) rows))
              (db.likes.find (by_user user) s.likes) s.paintings
              (rw (db.likes.find_lem (by_user user) s.likes) (
                All-mono (db.paintings.rows s.paintings)
                  (λ p e. omega (arith, e, count-discard (of_painting p.id) (by_user user) rows))
                  c.counted)));
      }
