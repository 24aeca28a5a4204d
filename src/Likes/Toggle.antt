-- ===== src/Likes/Toggle.antt =====
-- Pressing the heart twice.
use gall_pr.Common.{
  ℕ, ◌+◌, ◌≤◌, ◌≡◌, sym, ap, subst, ◌∙◌, Bool, not, ◌&&◌, Option, none, some, [], ◌∷◌, ◌++◌, map,
  ok, >>=-eq-ok, or_throw, or_throw-eq-ok, ok-injective, arith, ◌==◌, is_some, if◌then◌else◌, ltb,
  Distinct,
}
use gall_pr.Common.Rows.{first, discard, count, at_key, first_meets}
use gall_pr.Common.Rows.Laws.{by_key-first}
use gall_pr.Common.Rows.Counts.{count-append, count-discard_key, first-count}
use gall_pr.Orders.Entities.{painting_key}
use gall_pr.Likes.{PaintingLike, like_key, is_like, LikesDatabase, LikesTables, switch, toggle_like}
use gall_pr.Likes.Laws.{IsCounted, toggle_like-IsCounted}

abbrev one_if : Bool → ℕ
one_if b = if b then 1 else 0

answer_lem :
    (was liked here : Bool) (x y : ℕ)
    → not was ≡ liked
    → x + one_if (was && here) ≡ y + one_if (not was && here)
    → x + one_if (not liked && here) ≡ y + one_if (liked && here)
answer_lem was liked here x y e h = ground (arith, e, h)

module _ (db : LikesDatabase) where
  -- How often the table says that the user likes the painting: once or not at all.
  abbrev pub says : ℕ → ℕ → LikesTables db → ℕ
  says user painting s = count (is_like user painting) (db.likes.rows s.likes)

  -- One run: it answers what the table did not say, and the table then says that.
  pub record Toggled (user painting : ℕ) (s : LikesTables db) (liked : Bool) (s' : LikesTables db)
      : Type 0 where
    pub answered : liked ≡ not (ltb 0 (says user painting s))
    pub moved :
        (v k : ℕ)
        → says v k s' + one_if (not liked && (user == v && painting == k))
          ≡ says v k s + one_if (liked && (user == v && painting == k))

  switch-moved :
      (user painting : ℕ) (existing : Option PaintingLike) (s s' : LikesTables db)
      → Distinct (map like_key (db.likes.rows s.likes))
      → first (is_like user painting) (db.likes.rows s.likes) ≡ existing
      → switch db user painting existing s ≡ ok s'
      → (v k : ℕ)
      → says v k s' + one_if (is_some existing && (user == v && painting == k))
        ≡ says v k s + one_if (not (is_some existing) && (user == v && painting == k))
  unfolding switch count
  switch-moved user painting (some l) s s' d found h v k =
      let rows = db.likes.rows s.likes in
      let mine = first_meets (is_like user painting) rows found in
      let key = by_key-first like_key (is_like user painting) rows l d found in
      let left = count-discard_key like_key (is_like v k) l.id l rows d key in
      let e : db.likes.rows s'.likes ≡ discard (at_key like_key l.id) rows =
        ap (λ (x : LikesTables db). db.likes.rows x.likes) (sym (ok-injective h))
        ∙ db.likes.rows-delete (at_key like_key l.id) s.likes in
      rw e (ground (arith, left, mine))
  switch-moved user painting none s s' d found h v k =
      let ((l, t), inserted, last) = >>=-eq-ok (or_throw (db.likes.insert _ s.likes) _) _ h in
      let (added, shape, fresh) =
        db.likes.rows-insert _ s.likes t l (or_throw-eq-ok _ _ inserted) in
      let one = ap (λ (x : PaintingLike). x.painting_id) shape in
      let two = ap (λ (x : PaintingLike). x.user_id) shape in
      let e : db.likes.rows s'.likes ≡ db.likes.rows s.likes ++ l ∷ [] =
        ap (λ (x : LikesTables db). db.likes.rows x.likes) (sym (ok-injective last)) ∙ added in
      rw (e, count-append (is_like v k) (db.likes.rows s.likes) (l ∷ [])) (ground (arith, one, two))

  toggle_like-Toggled :
      (user painting n : ℕ) (liked : Bool) (s s' : LikesTables db)
      → IsCounted db s
      → toggle_like db user painting s ≡ ok (liked, n, s')
      → Toggled user painting s liked s'
  unfolding toggle_like
  toggle_like-Toggled user painting n liked s s' c h =
      let (p, found, h1) =
        >>=-eq-ok (or_throw (db.paintings.find_one (at_key painting_key painting) s.paintings) _) _
          h in
      let existing = db.likes.find_one (is_like user painting) s.likes in
      let (t, switched, last) = >>=-eq-ok (switch db user painting existing s) _ h1 in
      let same = db.likes.find_one_lem (is_like user painting) s.likes in
      let out = ok-injective last in
      let answer : not (is_some existing) ≡ liked =
        ap (λ (x : Bool × ℕ × LikesTables db). x.0) out in
      let tables : t ≡ s' = ap (λ (x : Bool × ℕ × LikesTables db). x.2) out in
      record {
        answered =
            sym answer
            ∙ ap (λ o. not (is_some o)) same
            ∙ ap not (first-count (is_like user painting) (db.likes.rows s.likes));
        moved = λ v k.
            let m = switch-moved user painting existing s t c.ids (sym same) switched v k in
            answer_lem (is_some existing) liked (user == v && painting == k) (says v k s')
              (says v k s) answer
              (subst
                (λ (x : LikesTables db).
                  says v k x + one_if (is_some existing && (user == v && painting == k))
                  ≡ says v k s + one_if (not (is_some existing) && (user == v && painting == k)))
                tables m);
      }

  -- Two presses of a heart leave what the table says of every user and painting as it was, and
  -- answer the opposite of each other, when the counters are right and the user likes the painting
  -- at most once.
  pub toggle_twice :
      (user painting n m : ℕ) (a b : Bool) (s t u : LikesTables db)
      → IsCounted db s
      → says user painting s ≤ 1
      → toggle_like db user painting s ≡ ok (a, n, t)
      → toggle_like db user painting t ≡ ok (b, m, u)
      → (b ≡ not a) × ((v k : ℕ) → says v k u ≡ says v k s)
  toggle_twice user painting n m a b s t u c unique h k =
      let one = toggle_like-Toggled user painting n a s t c h in
      let two =
        toggle_like-Toggled user painting m b t u
          (toggle_like-IsCounted db user painting n a s t c h) k in
      let here = one.moved user painting in
      let flip : b ≡ not a = ground (arith, one.answered, two.answered, here, unique) in
      (flip, λ v k'. ground (arith, flip, one.moved v k', two.moved v k'))
