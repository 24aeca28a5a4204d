-- ===== src/Giveaways.antt =====
-- backend/src/giveaways/giveaways.service.ts: giveaways and who takes part in them.
pub mod Join
use gall_pr.Common.{
  ℕ, String, Bool, true, false, not, ◌&&◌, ◌||◌, Option, none, some, List, [], ◌∷◌, map, leb, ltb,
  ◌==◌, if◌then◌else◌, is_some, or_else, Failure, bad_request, not_found, crashed, Result, ok, err,
  ◌>>=◌, ◌>>◌, throw_if, or_throw,
}
use gall_pr.Common.Rows.{at_key}
use gall_pr.Common.Repository.{Repository}

-- backend/src/giveaways/entities/giveaway.entity.ts
pub record Giveaway : Type 0 where
  pub id : ℕ
  pub title : String
  pub title_en : Option String
  pub description : String
  pub description_en : Option String
  pub conditions : Option String
  pub conditions_en : Option String
  pub painting_id : ℕ
  pub deadline : ℕ

-- backend/src/giveaways/entities/giveaway-participant.entity.ts
pub record GiveawayParticipant : Type 0 where
  pub id : ℕ
  pub giveaway_id : ℕ
  pub user_id : ℕ

abbrev pub giveaway_key : Giveaway → ℕ
giveaway_key g = g.id

abbrev pub participant_key : GiveawayParticipant → ℕ
participant_key p = p.id

pub record GiveawaysDatabase : Type 1 where
  pub giveaways : Repository giveaway_key
  pub participants : Repository participant_key

pub record GiveawaysTables (db : GiveawaysDatabase) : Type 0 where
  pub giveaways : db.giveaways.Table
  pub participants : db.participants.Table

-- `{ giveawayId, userId }`, `{ giveawayId }`
abbrev pub is_entry : ℕ → ℕ → GiveawayParticipant → Bool
is_entry giveaway user p = p.giveaway_id == giveaway && p.user_id == user

abbrev pub takes_part_in : ℕ → GiveawayParticipant → Bool
takes_part_in giveaway p = p.giveaway_id == giveaway

-- backend/src/giveaways/dto/create-giveaway.dto.ts; the deadline as `new Date` reads it.
pub record CreateGiveawayDto : Type 0 where
  pub title : String
  pub title_en : Option String
  pub description : String
  pub description_en : Option String
  pub conditions : Option String
  pub conditions_en : Option String
  pub painting_id : ℕ
  pub deadline : ℕ

-- backend/src/giveaways/dto/update-giveaway.dto.ts: a field that is not sent is `none`.
pub record UpdateGiveawayDto : Type 0 where
  pub title : Option String
  pub title_en : Option String
  pub description : Option String
  pub description_en : Option String
  pub conditions : Option String
  pub conditions_en : Option String
  pub painting_id : Option ℕ
  pub deadline : Option ℕ

unfoldable pub new_giveaway : CreateGiveawayDto → ℕ → Giveaway
new_giveaway dto id = record {
  id = id;
  title = dto.title;
  title_en = dto.title_en;
  description = dto.description;
  description_en = dto.description_en;
  conditions = dto.conditions;
  conditions_en = dto.conditions_en;
  painting_id = dto.painting_id;
  deadline = dto.deadline;
}

abbrev sent_or : Option String → Option String → Option String
sent_or none before = before
sent_or (some s) before = some s

-- `patch`
unfoldable pub patched : UpdateGiveawayDto → Giveaway → Giveaway
patched dto g = record g {
  title = or_else dto.title g.title;
  title_en = sent_or dto.title_en g.title_en;
  description = or_else dto.description g.description;
  description_en = sent_or dto.description_en g.description_en;
  conditions = sent_or dto.conditions g.conditions;
  conditions_en = sent_or dto.conditions_en g.conditions_en;
  painting_id = or_else dto.painting_id g.painting_id;
  deadline = or_else dto.deadline g.deadline;
}

-- `Object.keys(patch).length > 0`
unfoldable pub has_changes : UpdateGiveawayDto → Bool
has_changes dto =
    is_some dto.title
    || is_some dto.title_en
    || is_some dto.description
    || is_some dto.description_en
    || is_some dto.conditions
    || is_some dto.conditions_en
    || is_some dto.painting_id
    || is_some dto.deadline

-- `toSummary`: the giveaway, whether it is active, and how many take part.
pub record Summary : Type 0 where
  pub giveaway : Giveaway
  pub is_active : Bool
  pub participants_count : ℕ

abbrev pub to_summary : ℕ → Giveaway → ℕ → Summary
to_summary now g count = record {
  giveaway = g;
  is_active = ltb now g.deadline;
  participants_count = count;
}

-- `create({ giveawayId, userId })`
abbrev pub new_entry : ℕ → ℕ → ℕ → GiveawayParticipant
new_entry giveaway user id = record { id = id; giveaway_id = giveaway; user_id = user }

abbrev pub already_in : Failure
already_in = bad_request "Ви вже берете участь у цьому розіграші"

module _ (db : GiveawaysDatabase) where
  unfoldable pub get_entity_or_throw : ℕ → GiveawaysTables db → Result Giveaway
  get_entity_or_throw id s =
      or_throw (db.giveaways.find_one (at_key giveaway_key id) s.giveaways)
        (not_found "Розіграш не знайдено")

  -- `countParticipants` for one of its giveaways, with 0 where the grouped query has no row.
  unfoldable pub count_participants : ℕ → GiveawaysTables db → ℕ
  count_participants giveaway s =
      db.participants.count_where (takes_part_in giveaway) s.participants

  unfoldable pub summarise : ℕ → Giveaway → GiveawaysTables db → Summary
  unfolding count_participants
  summarise now g s = to_summary now g (count_participants g.id s)

  unfoldable pub create :
      ℕ → CreateGiveawayDto → GiveawaysTables db → Result (Summary × GiveawaysTables db)
  unfolding summarise get_entity_or_throw new_giveaway
  create now dto s = do
    (saved, giveaways) ←
        or_throw (db.giveaways.insert (new_giveaway dto) s.giveaways)
          (crashed "the giveaway could not be inserted")
    g ← get_entity_or_throw saved.id (record s { giveaways = giveaways })
    ok (summarise now g (record s { giveaways = giveaways }), record s { giveaways = giveaways })

  unfoldable pub write_patch : ℕ → UpdateGiveawayDto → GiveawaysTables db → GiveawaysTables db
  unfolding has_changes patched
  write_patch id dto s =
      if has_changes dto
      then record s {
        giveaways = db.giveaways.update (at_key giveaway_key id) (patched dto) s.giveaways;
      }
      else s

  unfoldable pub update :
      ℕ → ℕ → UpdateGiveawayDto → GiveawaysTables db → Result (Summary × GiveawaysTables db)
  unfolding summarise get_entity_or_throw write_patch
  update now id dto s = do
    found ← get_entity_or_throw id s
    g ← get_entity_or_throw id (write_patch id dto s)
    ok (summarise now g (write_patch id dto s), write_patch id dto s)

  -- `remove`; the foreign key deletes the giveaway's participants.
  unfoldable pub remove : ℕ → GiveawaysTables db → Result (GiveawaysTables db)
  unfolding get_entity_or_throw
  remove id s = do
    g ← get_entity_or_throw id s
    ok (record {
      giveaways = db.giveaways.delete (at_key giveaway_key g.id) s.giveaways;
      participants = db.participants.delete (takes_part_in g.id) s.participants;
    })

  -- `findAll`; the ORDER BY is the parameter `latest_first`.
  unfoldable pub find_all : (List Giveaway → List Giveaway) → ℕ → GiveawaysTables db → List Summary
  unfolding summarise
  find_all latest_first now s =
      map (λ g. summarise now g s) (latest_first (db.giveaways.find (λ g. true) s.giveaways))

  unfoldable pub find_one : ℕ → ℕ → GiveawaysTables db → Result Summary
  unfolding summarise get_entity_or_throw
  find_one now id s = do g ← get_entity_or_throw id s; ok (summarise now g s)

  unfoldable pub has_joined : ℕ → ℕ → GiveawaysTables db → Bool
  has_joined giveaway user s =
      is_some (db.participants.find_one (is_entry giveaway user) s.participants)

  -- The insertion of `join`, and what it answers where the database refuses the row.
  unfoldable pub enter : ℕ → ℕ → db.participants.Table → Result (db.participants.Table)
  enter giveaway user t = elim (db.participants.insert (new_entry giveaway user) t) [
    | some (row, t') ↦ ok t'
    | none ↦
        if is_some (db.participants.find_one (is_entry giveaway user) t)
        then err already_in
        else err (crashed "the participant could not be inserted")
  ]

  -- `join`; between its lookup and its insertion others may join, as `meanwhile` says.
  unfoldable pub join :
      ℕ
      → ℕ
      → ℕ
      → (db.participants.Table → db.participants.Table)
      → GiveawaysTables db
      → Result (ℕ × GiveawaysTables db)
  unfolding get_entity_or_throw has_joined enter
  join now id user meanwhile s = do
    giveaway ← get_entity_or_throw id s
    throw_if (leb giveaway.deadline now) (bad_request "Розіграш вже завершено")
    throw_if (has_joined id user s) already_in
    participants ← enter id user (meanwhile s.participants)
    ok (
      db.participants.count_where (takes_part_in id) participants,
      record s { participants = participants },
    )
