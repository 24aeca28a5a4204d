-- ===== src/Examples/Hearts.antt =====
-- Likes in the shop.
use gall_pr.Common.{ℕ, ◌≡◌, refl, not, Bool, true, [], ◌∷◌, ok, arith}
use gall_pr.Common.Rows.{first, by_key, discard, change, count}
use gall_pr.Orders.Entities.{painting_key}
use gall_pr.Likes.{like_key, LikesDatabase, LikesTables, toggle_like, switch, forget_likes}
use gall_pr.Likes.Laws.{IsCounted}
use gall_pr.Likes.Reach.{start, toggled, forgotten, Reach-IsCounted}
use gall_pr.Likes.Toggle.{says, toggle_twice}
use gall_pr.Examples.Tables.{list_repository}
use gall_pr.Examples.Shop.{harbour, or_value}

abbrev database : LikesDatabase
database = record { paintings = list_repository painting_key; likes = list_repository like_key }

-- A painting which nobody likes yet.
abbrev unliked : LikesTables database
unliked = record { paintings = harbour ∷ []; likes = [] }

abbrev liked : Bool × ℕ × LikesTables database
liked = or_value (true, 0, unliked) (toggle_like database 5 harbour.id unliked)

liked_lem : toggle_like database 5 harbour.id unliked ≡ ok liked
unfolding toggle_like switch first by_key discard change
liked_lem = refl

unliked-IsCounted : IsCounted database unliked
unfolding count
unliked-IsCounted = record { ids = tt; counted = (refl, tt) }

abbrev back : Bool × ℕ × LikesTables database
back = or_value (true, 0, unliked) (toggle_like database 5 harbour.id liked.2)

back_lem : toggle_like database 5 harbour.id liked.2 ≡ ok back
unfolding toggle_like switch first by_key discard change
back_lem = refl

none_yet : says database 5 harbour.id unliked ≡ 0
unfolding count
none_yet = refl

toggle_twice_example :
    (back.0 ≡ not liked.0) × ((v k : ℕ) → says database v k back.2 ≡ says database v k unliked)
toggle_twice_example =
    toggle_twice database 5 harbour.id liked.1 back.1 liked.0 back.0 unliked liked.2 back.2
      unliked-IsCounted (omega (arith, none_yet)) liked_lem back_lem

-- One customer likes the painting, and the account is then deleted.
Reach-IsCounted_example : IsCounted database (forget_likes database 5 liked.2)
Reach-IsCounted_example =
    Reach-IsCounted database unliked-IsCounted
      (forgotten 5 liked.2 (toggled 5 harbour.id liked.1 liked.0 unliked liked.2 start liked_lem))
