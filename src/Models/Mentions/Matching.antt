-- ===== src/Models/Mentions/Matching.antt =====
-- Where the expression matches: at the text of a mention, and at no character but `<`.
use pybotx.Common.{
  ℕ, ◌-◌, ◌≡◌, ◌≢◌, refl, sym, ◌∙◌, ap, true, false, Option, none, some, [], ◌∷◌, ◌++◌,
  append_assoc, append-nil, arith, All, length, drop,
}
use pybotx.Common.Text.{Str, strip_prefix, strip_prefix-ne, is_empty}
use pybotx.Common.Uuid.{IsUuidChar}
use pybotx.Models.Mentions.Defs.{MentionDict, embed_open, embed_close, embed_text}
use pybotx.Models.Mentions.Regex.{
  is_id_char, match_name, match_entity_id, match_type, match_at, matched, find_from,
}

-- `<` begins both tags.
abbrev pub NoTag : Str → Type 0
NoTag = All (λ c. c ≢ b'<')

-- A name that the last group takes whole.
abbrev pub IsName : Str → Type 0
IsName = All (λ c. (c ≢ b'<') × (c ≢ 10))

abbrev pub IsTypeText : Str → Type 0
IsTypeText = All (λ c. (c ≢ b':') × (c ≢ 10))

match_name-close : (name rest : Str) → match_name name (embed_close ++ rest) ≡ some name
unfolding match_name strip_prefix
match_name-close name rest = refl

pub match_name-step :
    (name : Str) (c : ℕ) (s : Str)
    → c ≢ b'<'
    → c ≢ 10
    → match_name name (c ∷ s) ≡ match_name (name ++ c ∷ []) s
unfolding match_name
match_name-step name c s tag line = ground (arith, strip_prefix-ne b'<' c (drop 1 embed_close) s)

match_name-run :
    (taken name rest : Str)
    → IsName name
    → match_name taken (name ++ (embed_close ++ rest)) ≡ some (taken ++ name)
match_name-run taken [] rest h = rw append-nil (match_name-close taken rest)
match_name-run taken (c ∷ name) rest ((tag, line), h) =
    match_name-step taken c _ tag line
    ∙ match_name-run (taken ++ c ∷ []) name rest h
    ∙ ap {B = Option Str} some (append_assoc taken (c ∷ []) name)

IsUuidChar-is_id_char : (c : ℕ) → IsUuidChar c → (is_id_char c ≡ true) × (c ≢ b':')
unfolding is_id_char
IsUuidChar-is_id_char c h = (ground arith, ground arith)

match_entity_id-run :
    (taken id s name : Str)
    → All IsUuidChar id
    → match_name [] s ≡ some name
    → match_entity_id taken (id ++ b':' ∷ s) ≡ some (taken ++ id, name)
unfolding match_entity_id
match_entity_id-run taken [] s name h m = rw append-nil (ground (arith, m))
match_entity_id-run taken (c ∷ id) s name (p, h) m =
    let ih = match_entity_id-run (taken ++ c ∷ []) id s name h m in
    let (is_id, colon) = IsUuidChar-is_id_char c p in
    ground (arith, ih, is_id, colon, append_assoc taken (c ∷ []) id)

match_type-run :
    (taken t s id name : Str)
    → IsTypeText t
    → is_empty (taken ++ t) ≡ false
    → match_entity_id [] s ≡ some (id, name)
    → match_type taken (t ++ b':' ∷ s)
      ≡ some (record { mention_type = taken ++ t; mentioned_entity_id = id; mention_name = name })
unfolding match_type
match_type-run taken [] s id name h e m =
    let filled : is_empty taken ≡ false = rw append-nil at e in
    rw append-nil (ground (arith, m, filled))
match_type-run taken (c ∷ t) s id name ((colon, line), h) e m =
    let ih = match_type-run (taken ++ c ∷ []) t s id name h (rw append_assoc e) m in
    ground (arith, ih, append_assoc taken (c ∷ []) t)

regroup :
    (t id name rest : Str)
    → (t ++ b':' ∷ (id ++ b':' ∷ (name ++ embed_close))) ++ rest
      ≡ t ++ b':' ∷ (id ++ b':' ∷ (name ++ (embed_close ++ rest)))
regroup t id name rest = simp append_assoc

-- The text of a mention that follows its rules matches as a whole, whatever comes after it.
pub match_at-embed_text :
    (t id name rest : Str)
    → IsTypeText t
    → is_empty t ≡ false
    → All IsUuidChar id
    → IsName name
    → match_at (embed_text t id name ++ rest)
      ≡ some (record { mention_type = t; mentioned_entity_id = id; mention_name = name })
unfolding match_at strip_prefix
match_at-embed_text t id name rest ht he hi hn =
    ap (match_type []) (regroup t id name rest)
    ∙ match_type-run [] t _ id name ht he
        (match_entity_id-run [] id _ name hi (match_name-run [] name rest hn))

-- What a match must meet, stated of its groups.
pub record IsEmbed (d : MentionDict) : Type 0 where
  pub type_text : IsTypeText d.mention_type
  pub filled : is_empty d.mention_type ≡ false
  pub entity_id : All IsUuidChar d.mentioned_entity_id
  pub name : IsName d.mention_name

match_at-matched :
    (d : MentionDict) (rest : Str) → IsEmbed d → match_at (matched d ++ rest) ≡ some d
match_at-matched d rest h = match_at-embed_text _ _ _ rest h.type_text h.filled h.entity_id h.name

match_at-ne : (c : ℕ) (s : Str) → c ≢ b'<' → match_at (c ∷ s) ≡ none
unfolding match_at
match_at-ne c s h = rw (strip_prefix-ne b'<' c (drop 1 embed_open) s (λ e. h (sym e)), match_at)

find_from-skip : (t s : Str) → find_from (length t) (t ++ s) ≡ find_from 0 s
unfolding find_from
find_from-skip [] s = refl
find_from-skip (c ∷ t) s = find_from-skip t s

pub find_from-none :
    (c : ℕ) (s : Str) → match_at (c ∷ s) ≡ none → find_from 0 (c ∷ s) ≡ find_from 0 s
unfolding find_from
find_from-none c s e = rw (e, find_from)

find_from-some :
    (c : ℕ) (s : Str) (d : MentionDict)
    → match_at (c ∷ s) ≡ some d
    → find_from 0 (c ∷ s) ≡ d ∷ find_from (length (matched d) - 1) s
unfolding find_from
find_from-some c s d e = rw (e, find_from)

pub find_from-NoTag : (t s : Str) → NoTag t → find_from 0 (t ++ s) ≡ find_from 0 s
find_from-NoTag [] s h = refl
find_from-NoTag (c ∷ t) s (n, h) =
    find_from-none c (t ++ s) (match_at-ne c (t ++ s) n) ∙ find_from-NoTag t s h

pub find_from-matched :
    (d : MentionDict) (s : Str) → IsEmbed d → find_from 0 (matched d ++ s) ≡ d ∷ find_from 0 s
find_from-matched d s h =
    find_from-some b'<' (drop 1 (matched d ++ s)) d (match_at-matched d s h)
    ∙ ap (λ r. d ∷ r)
        (ap (λ k. find_from k (drop 1 (matched d) ++ s)) (omega arith)
          ∙ find_from-skip (drop 1 (matched d)) s)
