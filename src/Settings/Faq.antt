-- ===== src/Settings/Faq.antt =====
-- The questions of backend/src/settings: a JavaScript object from ids to items.
use gall_pr.Common.{
  ℕ, suc, String, Option, none, some, List, [], ◌∷◌, max, str_eq, if◌then◌else◌, or_else,
}

-- backend/src/settings/entities/app-settings.entity.ts
pub record FaqItem : Type 0 where
  pub title : String
  pub title_en : Option String
  pub text : String
  pub text_en : Option String
  pub order : ℕ

-- The questions under their ids, in the order in which they were added.
abbrev pub FaqMap : Type 0
FaqMap = List (String × FaqItem)

-- `faq[id]`, `faq[id] = item`, `delete faq[id]`
unfoldable pub faq_item : String → FaqMap → Option FaqItem
faq_item id [] = none
faq_item id ((k, item) ∷ rest) = if str_eq k id then some item else faq_item id rest

unfoldable pub set_faq_item : String → FaqItem → FaqMap → FaqMap
set_faq_item id item [] = (id, item) ∷ []
set_faq_item id item ((k, old) ∷ rest) =
    let rest' = set_faq_item id item rest in
    if str_eq k id then (k, item) ∷ rest else (k, old) ∷ rest'

unfoldable pub delete_faq_item_at : String → FaqMap → FaqMap
delete_faq_item_at id [] = []
delete_faq_item_at id ((k, old) ∷ rest) =
    let rest' = delete_faq_item_at id rest in if str_eq k id then rest else (k, old) ∷ rest'

-- `maxOrder + 1`
unfoldable pub next_order : FaqMap → ℕ
next_order [] = 0
next_order ((k, item) ∷ rest) = max (suc item.order) (next_order rest)

-- The loop of `reorderFaq`.
unfoldable pub reordered : List (String × ℕ) → FaqMap → FaqMap
unfolding faq_item set_faq_item
reordered [] faq = faq
reordered ((id, order) ∷ entries) faq = elim (faq_item id faq) [
  | none ↦ reordered entries faq
  | some item ↦ reordered entries (set_faq_item id (record item { order = order }) faq)
]

-- backend/src/settings/dto/faq-item.dto.ts
pub record CreateFaqItemDto : Type 0 where
  pub title : String
  pub title_en : Option String
  pub text : String
  pub text_en : Option String

pub record UpdateFaqItemDto : Type 0 where
  pub title : Option String
  pub title_en : Option String
  pub text : Option String
  pub text_en : Option String

abbrev pub sent_or : Option String → Option String → Option String
sent_or none before = before
sent_or (some s) before = some s

-- `{ ...faq[id], ...dto }`
abbrev pub edited : UpdateFaqItemDto → FaqItem → FaqItem
edited dto item = record item {
  title = or_else dto.title item.title;
  title_en = sent_or dto.title_en item.title_en;
  text = or_else dto.text item.text;
  text_en = sent_or dto.text_en item.text_en;
}
