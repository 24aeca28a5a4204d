-- ===== src/Settings.antt =====
-- backend/src/settings/settings.service.ts: the one row of settings, the code that links the
-- administrator's Telegram, and the questions.
pub mod Faq
pub mod Link
use gall_pr.Common.{
  ℕ, suc, ◌+◌, String, Bool, true, false, not, ◌&&◌, Option, none, some, List, [], ◌∷◌, ◌++◌, ltb,
  leb, max, ◌==◌, str_eq, if◌then◌else◌, is_some, or_else, non_empty, not_found, crashed, Result,
  ok, err, ◌>>=◌, ◌>>◌, throw_if, or_throw,
}
use gall_pr.Common.Rows.{at_key}
use gall_pr.Common.Repository.{Repository}
use gall_pr.Settings.Faq.{
  FaqItem, FaqMap, faq_item, set_faq_item, delete_faq_item_at, next_order, reordered,
  CreateFaqItemDto, UpdateFaqItemDto, sent_or, edited,
}

-- backend/src/settings/entities/app-settings.entity.ts
pub record AppSettings : Type 0 where
  pub id : ℕ
  pub author_name : String
  pub author_name_en : Option String
  pub card_transfer_iban : String
  pub nova_poshta_sender_city_ref : String
  pub nova_poshta_sender_city_name : String
  pub support_email : String
  pub support_phone : String
  pub support_telegram_url : String
  pub instagram_url : String
  pub facebook_url : String
  pub admin_telegram_chat_id : String
  pub admin_telegram_link_code : Option String
  pub admin_telegram_link_code_expires_at : Option ℕ
  pub hero_painting_id1 : Option ℕ
  pub hero_painting_id2 : Option ℕ
  pub hero_painting_id3 : Option ℕ
  pub faq : FaqMap

abbrev pub settings_key : AppSettings → ℕ
settings_key s = s.id

pub record PublicSettings : Type 0 where
  pub author_name : String
  pub author_name_en : Option String
  pub card_transfer_iban : String
  pub support_email : String
  pub support_phone : String
  pub support_telegram_url : String
  pub instagram_url : String
  pub facebook_url : String
  pub hero_painting_id1 : Option ℕ
  pub hero_painting_id2 : Option ℕ
  pub hero_painting_id3 : Option ℕ

abbrev pub admin_link_code_ttl_ms : ℕ
admin_link_code_ttl_ms = 600000

-- `createDefaultRow`
abbrev pub default_row : AppSettings
default_row = record {
  id = 1;
  author_name = "";
  author_name_en = none;
  card_transfer_iban = "";
  nova_poshta_sender_city_ref = "";
  nova_poshta_sender_city_name = "";
  support_email = "";
  support_phone = "";
  support_telegram_url = "";
  instagram_url = "";
  facebook_url = "";
  admin_telegram_chat_id = "";
  admin_telegram_link_code = none;
  admin_telegram_link_code_expires_at = none;
  hero_painting_id1 = none;
  hero_painting_id2 = none;
  hero_painting_id3 = none;
  faq = [];
}

-- `order: { id: 'ASC' }, take: 1`
abbrev older_of : AppSettings → Option AppSettings → AppSettings
older_of s none = s
older_of s (some t) = if leb s.id t.id then s else t

unfoldable pub lowest_row : List AppSettings → Option AppSettings
lowest_row [] = none
lowest_row (s ∷ ss) = some (older_of s (lowest_row ss))

-- `valid` of `redeemAdminTelegramLinkCode`
abbrev pub holds_code : Option String → String → Bool
holds_code none code = false
holds_code (some expected) code = is_some (non_empty expected) && str_eq expected code

abbrev pub expires_after : Option ℕ → ℕ → Bool
expires_after none now = false
expires_after (some at) now = ltb now at

unfoldable pub is_valid_code : ℕ → String → AppSettings → Bool
is_valid_code now code s =
    holds_code s.admin_telegram_link_code code
    && expires_after s.admin_telegram_link_code_expires_at now

-- The row after a code was redeemed for a chat; after the link was reset.
abbrev pub linked_to : String → AppSettings → AppSettings
linked_to chat s = record s {
  admin_telegram_chat_id = chat;
  admin_telegram_link_code = none;
  admin_telegram_link_code_expires_at = none;
}

-- backend/src/settings/dto/update-settings.dto.ts: a field that is not sent is `none`.
pub record UpdateSettingsDto : Type 0 where
  pub hero_painting_id1 : Option (Option ℕ)
  pub hero_painting_id2 : Option (Option ℕ)
  pub hero_painting_id3 : Option (Option ℕ)
  pub author_name : Option String
  pub author_name_en : Option String
  pub card_transfer_iban : Option String
  pub nova_poshta_sender_city_ref : Option String
  pub nova_poshta_sender_city_name : Option String
  pub support_email : Option String
  pub support_phone : Option String
  pub support_telegram_url : Option String
  pub instagram_url : Option String
  pub facebook_url : Option String

-- `Object.assign(settings, dto)`
unfoldable pub assigned : UpdateSettingsDto → AppSettings → AppSettings
assigned dto s = record s {
  hero_painting_id1 = or_else dto.hero_painting_id1 s.hero_painting_id1;
  hero_painting_id2 = or_else dto.hero_painting_id2 s.hero_painting_id2;
  hero_painting_id3 = or_else dto.hero_painting_id3 s.hero_painting_id3;
  author_name = or_else dto.author_name s.author_name;
  author_name_en = sent_or dto.author_name_en s.author_name_en;
  card_transfer_iban = or_else dto.card_transfer_iban s.card_transfer_iban;
  nova_poshta_sender_city_ref =
      or_else dto.nova_poshta_sender_city_ref s.nova_poshta_sender_city_ref;
  nova_poshta_sender_city_name =
      or_else dto.nova_poshta_sender_city_name s.nova_poshta_sender_city_name;
  support_email = or_else dto.support_email s.support_email;
  support_phone = or_else dto.support_phone s.support_phone;
  support_telegram_url = or_else dto.support_telegram_url s.support_telegram_url;
  instagram_url = or_else dto.instagram_url s.instagram_url;
  facebook_url = or_else dto.facebook_url s.facebook_url;
}

module _ (repo : Repository settings_key) where
  unfoldable pub find_row : repo.Table → Option AppSettings
  unfolding lowest_row
  find_row t = lowest_row (repo.find (λ s. true) t)

  -- The `save` of `createDefaultRow`, which reads the row under its id first: a row that is there
  -- is overwritten, but for the column that is not named, and answered as it was to be created;
  -- else it is inserted, and refused if another request has inserted it since, as `racing` may.
  unfoldable pub create_default_row :
      (repo.Table → repo.Table) → repo.Table → Option (AppSettings × repo.Table)
  create_default_row racing t = elim (repo.find_one (at_key settings_key 1) t) [
    | some old ↦
        some (default_row, repo.save (record default_row { author_name_en = old.author_name_en }) t)
    | none ↦
        if repo.count_where (at_key settings_key 1) (racing t) == 0
        then some (default_row, repo.save default_row (racing t))
        else none
  ]

  -- The `catch` reads again.
  unfoldable pub created_or_raced :
      repo.Table → Option (AppSettings × repo.Table) → Result (AppSettings × repo.Table)
  unfolding find_row
  created_or_raced t (some (row, t')) = ok (row, t')
  created_or_raced t none = do
    raced ← or_throw (find_row t) (crashed "Failed to create the application settings row")
    ok (raced, t)

  -- `get`; other requests may commit what `meanwhile` does between its lookup and the lookup of
  -- its `save`, and what `racing` does between that and the insertion.
  unfoldable pub get :
      (repo.Table → repo.Table)
      → (repo.Table → repo.Table)
      → repo.Table
      → Result (AppSettings × repo.Table)
  unfolding find_row create_default_row created_or_raced
  get meanwhile racing t = elim (find_row t) [
    | some existing ↦ ok (existing, t)
    | none ↦ created_or_raced (racing (meanwhile t)) (create_default_row racing (meanwhile t))
  ]

  unfoldable pub get_public : repo.Table → Result (PublicSettings × repo.Table)
  unfolding get
  get_public t = do
    (s, t') ← get (λ x. x) (λ x. x) t
    ok (
      record {
        author_name = s.author_name;
        author_name_en = s.author_name_en;
        card_transfer_iban = s.card_transfer_iban;
        support_email = s.support_email;
        support_phone = s.support_phone;
        support_telegram_url = s.support_telegram_url;
        instagram_url = s.instagram_url;
        facebook_url = s.facebook_url;
        hero_painting_id1 = s.hero_painting_id1;
        hero_painting_id2 = s.hero_painting_id2;
        hero_painting_id3 = s.hero_painting_id3;
      },
      t',
    )

  unfoldable pub update : UpdateSettingsDto → repo.Table → Result (AppSettings × repo.Table)
  unfolding get assigned
  update dto t = do
    (s, t') ← get (λ x. x) (λ x. x) t
    ok (assigned dto s, repo.save (assigned dto s) t')

  -- `generateAdminTelegramLinkCode`, with the code that was drawn.
  unfoldable pub generate_admin_telegram_link_code :
      ℕ → String → repo.Table → Result (String × ℕ × repo.Table)
  unfolding get
  generate_admin_telegram_link_code now code t = do
    (s, t') ← get (λ x. x) (λ x. x) t
    ok (
      code,
      now + admin_link_code_ttl_ms,
      repo.save
          (record s {
            admin_telegram_link_code = some code;
            admin_telegram_link_code_expires_at = some (now + admin_link_code_ttl_ms);
          })
          t',
    )

  unfoldable pub reset_admin_telegram_link : repo.Table → Result repo.Table
  unfolding get
  reset_admin_telegram_link t = do
    (s, t') ← get (λ x. x) (λ x. x) t
    ok (repo.save (linked_to "" s) t')

  unfoldable pub redeem_admin_telegram_link_code :
      ℕ → String → String → repo.Table → Result (Bool × repo.Table)
  unfolding get is_valid_code
  redeem_admin_telegram_link_code now code chat t = do
    (s, t') ← get (λ x. x) (λ x. x) t
    (if not (is_valid_code now code s)
        then ok (false, t')
        else ok (true, repo.save (linked_to chat s) t'))

  unfoldable pub get_faq : repo.Table → Result (FaqMap × repo.Table)
  unfolding get
  get_faq t = do (s, t') ← get (λ x. x) (λ x. x) t; ok (s.faq, t')

  -- `createFaqItem`, with the id that was drawn.
  unfoldable pub create_faq_item :
      String → CreateFaqItemDto → repo.Table → Result (FaqMap × repo.Table)
  unfolding get next_order set_faq_item
  create_faq_item id dto t = do
    (s, t') ← get (λ x. x) (λ x. x) t
    let faq =
        set_faq_item id
          (record {
            title = dto.title;
            title_en = dto.title_en;
            text = dto.text;
            text_en = dto.text_en;
            order = next_order s.faq;
          })
          s.faq
    ok (faq, repo.save (record s { faq = faq }) t')

  unfoldable pub update_faq_item :
      String → UpdateFaqItemDto → repo.Table → Result (FaqMap × repo.Table)
  unfolding get faq_item set_faq_item
  update_faq_item id dto t = do
    (s, t') ← get (λ x. x) (λ x. x) t
    item ← or_throw (faq_item id s.faq) (not_found "Питання не знайдено")
    let faq = set_faq_item id (edited dto item) s.faq
    ok (faq, repo.save (record s { faq = faq }) t')

  unfoldable pub delete_faq_item : String → repo.Table → Result (FaqMap × repo.Table)
  unfolding get faq_item delete_faq_item_at
  delete_faq_item id t = do
    (s, t') ← get (λ x. x) (λ x. x) t
    item ← or_throw (faq_item id s.faq) (not_found "Питання не знайдено")
    let faq = delete_faq_item_at id s.faq
    ok (faq, repo.save (record s { faq = faq }) t')

  unfoldable pub reorder_faq : List (String × ℕ) → repo.Table → Result (FaqMap × repo.Table)
  unfolding get reordered
  reorder_faq entries t = do
    (s, t') ← get (λ x. x) (λ x. x) t
    let faq = reordered entries s.faq
    ok (faq, repo.save (record s { faq = faq }) t')
