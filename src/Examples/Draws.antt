-- ===== src/Examples/Draws.antt =====
-- A giveaway that a customer joins with two requests at once.
use gall_pr.Common.{
  ℕ, ◌≡◌, refl, Bool, false, Option, none, some, List, [], ◌∷◌, ok, is_some, if◌then◌else◌,
  Bool-cases, inl, inr,
}
use gall_pr.Common.Rows.{first, count, by_key}
use gall_pr.Common.Repository.{Repository}
use gall_pr.Giveaways.{
  Giveaway, GiveawayParticipant, GiveawaysDatabase, GiveawaysTables, giveaway_key, participant_key,
  is_entry, new_entry, get_entity_or_throw, has_joined, enter, join,
}
use gall_pr.Giveaways.Join.{IsIndexed, Joined, join-Joined}
use gall_pr.Examples.Tables.{list_repository, insert_row, insert_row_lem}
use gall_pr.Examples.Shop.{or_value}

-- The unique index on the giveaway and the user.
abbrev taken : GiveawayParticipant → List GiveawayParticipant → Bool
taken p t = is_some (first (is_entry p.giveaway_id p.user_id) t)

abbrev insert_entry :
    (ℕ → GiveawayParticipant)
    → List GiveawayParticipant
    → Option (GiveawayParticipant × List GiveawayParticipant)
insert_entry mk t = if taken (mk 0) t then none else insert_row participant_key mk t

insert_entry-taken :
    (mk : ℕ → GiveawayParticipant) (t t' : List GiveawayParticipant) (p : GiveawayParticipant)
    → insert_entry mk t ≡ some (p, t')
    → (taken (mk 0) t ≡ false) × (insert_row participant_key mk t ≡ some (p, t'))
insert_entry-taken mk t t' p h = elim (Bool-cases (taken (mk 0) t)) [
  | inl yes' ↦
      let h' : ◌≡◌ {A = Option (GiveawayParticipant × List GiveawayParticipant)} none
          (some (p, t')) =
        rw yes' at h in
      absurd (cc h')
  | inr no' ↦ let h' : insert_row participant_key mk t ≡ some (p, t') = rw no' at h in (no', h')
]

abbrev participants : Repository participant_key
participants = record (list_repository participant_key) {
  insert = insert_entry;
  rows-insert =
      λ mk t t' p h. insert_row_lem participant_key mk t t' p (insert_entry-taken mk t t' p h).1;
}

abbrev database : GiveawaysDatabase
database = record { giveaways = list_repository giveaway_key; participants = participants }

database-IsIndexed : IsIndexed database
database-IsIndexed giveaway user t t' p h =
    none_of (first (is_entry giveaway user) t)
      (insert_entry-taken (new_entry giveaway user) t t' p h).0
  where
    none_of : (o : Option GiveawayParticipant) → is_some o ≡ false → o ≡ none
    none_of none e = refl
    none_of (some x) e = cc

abbrev spring : Giveaway
spring = record {
  id = 1;
  title = "Весна";
  title_en = none;
  description = "Лілії";
  description_en = none;
  conditions = none;
  conditions_en = none;
  painting_id = 7;
  deadline = 5000;
}

abbrev opened : GiveawaysTables database
opened = record { giveaways = spring ∷ []; participants = [] }

-- Somebody else joins in between.
abbrev other_first : List GiveawayParticipant → List GiveawayParticipant
other_first t = new_entry 1 6 7 ∷ t

abbrev joined : ℕ × GiveawaysTables database
joined = or_value (0, opened) (join database 1000 1 5 other_first opened)

joined_lem : join database 1000 1 5 other_first opened ≡ ok joined
unfolding join get_entity_or_throw has_joined enter first count by_key
joined_lem = refl

join-Joined_example : Joined database 1000 1 5 joined.0 opened joined.1
join-Joined_example =
    join-Joined database 1000 1 5 joined.0 other_first opened joined.1 database-IsIndexed joined_lem
