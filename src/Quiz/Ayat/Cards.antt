-- ===== src/Quiz/Ayat/Cards.antt =====
-- internal/service/quiz.go: cards with verses, from the tags of cards, and the functions of package
-- strings that their questions use.
use backend_quiz.Common.{ℕ, ◌==◌, Option, none, some, List, [], ◌∷◌, ◌++◌, ltb, if◌then◌else◌}
use backend_quiz.Common.{ℤ, pos, negsuc}
use backend_quiz.Common.Text.{Text, text_eq, is_space}
use backend_quiz.Domain.Card.{Card}

-- ayatCard; its number is positive (see `filter_ayat_cards`)
pub record AyatCard : Type 0 where
  pub card : Card
  pub surat : Text
  pub ayat_num : ℕ

-- an entry of map[string][]ayatCard
pub record AyatGroup : Type 0 where
  pub surat : Text
  pub cards : List AyatCard

-- fmt.Sscanf with "%d", where it reads a number, and sort.Slice by the number
pub record Reader : Type 0 where
  pub scan_int : Text → Option ℤ
  pub sort_cards : List AyatCard → List AyatCard

-- strings.HasPrefix and strings.TrimPrefix
abbrev pub after_prefix : Text → Text → Option Text
after_prefix [] s = some s
after_prefix (p ∷ ps) [] = none
after_prefix (p ∷ ps) (c ∷ s) = let rest = after_prefix ps s in if p == c then rest else none

abbrev surat_prefix : Text
surat_prefix = b's' ∷ b'u' ∷ b'r' ∷ b'a' ∷ b't' ∷ b':' ∷ []

abbrev ayat_prefix : Text
ayat_prefix = b'a' ∷ b'y' ∷ b'a' ∷ b't' ∷ b':' ∷ []

abbrev or_text : Option Text → Text → Text
or_text none old = old
or_text (some new) old = new

abbrev or_number : Reader → Option Text → ℤ → ℤ
or_number reader none old = old
or_number reader (some s) old = elim (reader.scan_int s) [ none ↦ old | some n ↦ n ]

-- the loop of parseCardTags
unfoldable pub parse_tags : Reader → Text → ℤ → List Text → Text × ℤ
parse_tags reader surat num [] = (surat, num)
parse_tags reader surat num (t ∷ ts) =
    parse_tags reader (or_text (after_prefix surat_prefix t) surat)
      (or_number reader (after_prefix ayat_prefix t) num) ts

-- `surat != "" && ayatNum > 0`
abbrev ayat_card : Card → Text × ℤ → Option AyatCard
ayat_card c ([], num) = none
ayat_card c (s ∷ surat, negsuc n) = none
ayat_card c (s ∷ surat, pos n) =
    if ltb 0 n then some (record { card = c; surat = s ∷ surat; ayat_num = n }) else none

-- parseCardTags
unfoldable pub parse_card_tags : Reader → Card → Option AyatCard
unfolding parse_tags
parse_card_tags reader c = ayat_card c (parse_tags reader [] (pos 0) c.tags)

abbrev cons_some : {A : Type 0} → Option A → List A → List A
cons_some none xs = xs
cons_some (some x) xs = x ∷ xs

-- filterAyatCards
unfoldable pub filter_ayat_cards : Reader → List Card → List AyatCard
unfolding parse_card_tags
filter_ayat_cards reader [] = []
filter_ayat_cards reader (c ∷ cs) =
    cons_some (parse_card_tags reader c) (filter_ayat_cards reader cs)

-- groups[c.Surat] = append(groups[c.Surat], c)
abbrev add_to_group : AyatCard → List AyatGroup → List AyatGroup
add_to_group c [] = record { surat = c.surat; cards = c ∷ [] } ∷ []
add_to_group c (g ∷ gs) =
    let rest = add_to_group c gs in
    if text_eq g.surat c.surat then record g { cards = g.cards ++ c ∷ [] } ∷ gs else g ∷ rest

unfoldable pub add_all : List AyatGroup → List AyatCard → List AyatGroup
add_all groups [] = groups
add_all groups (c ∷ cs) = add_all (add_to_group c groups) cs

abbrev sort_all : Reader → List AyatGroup → List AyatGroup
sort_all reader [] = []
sort_all reader (g ∷ gs) = record g { cards = reader.sort_cards g.cards } ∷ sort_all reader gs

-- groupBySurat
unfoldable pub group_by_surat : Reader → List AyatCard → List AyatGroup
unfolding add_all
group_by_surat reader cards = sort_all reader (add_all [] cards)

-- one word more in front, where the text has not begun with a space
abbrev cons_word : Text → List Text → List Text
cons_word [] ws = ws
cons_word (c ∷ w) ws = (c ∷ w) ∷ ws

-- the loop of strings.Fields, with the word that is being read
unfoldable pub fields_from : Text → Text → List Text
fields_from word [] = cons_word word []
fields_from word (c ∷ s) =
    let next = cons_word word (fields_from [] s) in
    let more = fields_from (word ++ c ∷ []) s in if is_space c then next else more

-- strings.Fields
unfoldable pub fields : Text → List Text
unfolding fields_from
fields s = fields_from [] s

-- strings.Join
unfoldable pub join : Text → List Text → Text
join sep [] = []
join sep (w ∷ []) = w
join sep (w ∷ v ∷ ws) = w ++ sep ++ join sep (v ∷ ws)
