-- ===== src/Models/Mentions/Filters.antt =====
-- `MentionList`: the mentions of one kind, and whether all users are mentioned.
use mathlib.Core.List.{Perm, perm_middle}
use mathlib.Core.List.Perm
use pybotx.Common.{
  ◌≡◌, ◌↔◌, refl, Bool, true, false, Option, List, [], ◌∷◌, ◌++◌, All, arith, In, inl,
  if◌then◌else◌,
}
use pybotx.Common.Text.{Str}
use pybotx.Common.Uuid.{Uuid}
use pybotx.Models.Mentions.Defs.{Mention, user, contact, chat, channel, all}

-- A list comprehension with `isinstance`.
select : (Mention → Bool) → List Mention → List Mention
select p [] = []
select p (m ∷ ms) = let rest = select p ms in if p m then m ∷ rest else rest

abbrev is_contact : Mention → Bool
is_contact (contact _ _) = true
is_contact _ = false

abbrev is_chat : Mention → Bool
is_chat (chat _ _) = true
is_chat _ = false

abbrev is_channel : Mention → Bool
is_channel (channel _ _) = true
is_channel _ = false

abbrev is_user : Mention → Bool
is_user (user _ _) = true
is_user _ = false

abbrev is_all : Mention → Bool
is_all all = true
is_all _ = false

unfoldable pub contacts : List Mention → List Mention
unfolding select
contacts = select is_contact

unfoldable pub chats : List Mention → List Mention
unfolding select
chats = select is_chat

unfoldable pub channels : List Mention → List Mention
unfolding select
channels = select is_channel

unfoldable pub users : List Mention → List Mention
unfolding select
users = select is_user

unfoldable pub all_users_mentioned : List Mention → Bool
all_users_mentioned [] = false
all_users_mentioned (m ∷ ms) =
    let later = all_users_mentioned ms in if is_all m then true else later

-- All users are mentioned exactly when the list holds the mention of all.
pub all_users_mentioned_iff : (ms : List Mention) → (all_users_mentioned ms ≡ true) ↔ In all ms
unfolding all_users_mentioned
all_users_mentioned_iff [] = (λ h. cc, λ i. elim i [ ])
all_users_mentioned_iff (all ∷ ms) = (λ h. inl refl, λ i. refl)
all_users_mentioned_iff (user e n ∷ ms) = ground (arith, all_users_mentioned_iff ms)
all_users_mentioned_iff (contact e n ∷ ms) = ground (arith, all_users_mentioned_iff ms)
all_users_mentioned_iff (chat e n ∷ ms) = ground (arith, all_users_mentioned_iff ms)
all_users_mentioned_iff (channel e n ∷ ms) = ground (arith, all_users_mentioned_iff ms)

-- The mentions of all, as often as the list holds them.
unfoldable pub all_mentions : List Mention → List Mention
unfolding select
all_mentions = select is_all

-- The five parts one after the other
abbrev pub parts : List Mention → List Mention
parts ms = contacts ms ++ (chats ms ++ (channels ms ++ (users ms ++ all_mentions ms)))

-- Which mentions a filter is for
abbrev pub IsContact : Mention → Type 0
IsContact m = (entity_id : Uuid) × (name : Option Str) × (m ≡ contact entity_id name)

abbrev pub IsChat : Mention → Type 0
IsChat m = (entity_id : Uuid) × (name : Option Str) × (m ≡ chat entity_id name)

abbrev pub IsChannel : Mention → Type 0
IsChannel m = (entity_id : Uuid) × (name : Option Str) × (m ≡ channel entity_id name)

abbrev pub IsUser : Mention → Type 0
IsUser m = (entity_id : Uuid) × (name : Option Str) × (m ≡ user entity_id name)

contacts-IsContact : (ms : List Mention) → All IsContact (contacts ms)
unfolding contacts
contacts-IsContact [] = tt
contacts-IsContact (contact e n ∷ ms) = ((e, n, refl), contacts-IsContact ms)
contacts-IsContact (_ ∷ ms) = contacts-IsContact ms

chats-IsChat : (ms : List Mention) → All IsChat (chats ms)
unfolding chats
chats-IsChat [] = tt
chats-IsChat (chat e n ∷ ms) = ((e, n, refl), chats-IsChat ms)
chats-IsChat (_ ∷ ms) = chats-IsChat ms

channels-IsChannel : (ms : List Mention) → All IsChannel (channels ms)
unfolding channels
channels-IsChannel [] = tt
channels-IsChannel (channel e n ∷ ms) = ((e, n, refl), channels-IsChannel ms)
channels-IsChannel (_ ∷ ms) = channels-IsChannel ms

users-IsUser : (ms : List Mention) → All IsUser (users ms)
unfolding users
users-IsUser [] = tt
users-IsUser (user e n ∷ ms) = ((e, n, refl), users-IsUser ms)
users-IsUser (_ ∷ ms) = users-IsUser ms

-- A mention that comes first in a rearrangement comes first with another list in front.
deeper :
    (m : Mention) (xs : List Mention) {ys zs : List Mention}
    → Perm ys (m ∷ zs)
    → Perm (xs ++ ys) (m ∷ (xs ++ zs))
deeper m xs p = Perm.trans (Perm.append_left xs p) (perm_middle xs _)

all_mentions-all : (ms : List Mention) → All (λ m. m ≡ all) (all_mentions ms)
unfolding all_mentions
all_mentions-all [] = tt
all_mentions-all (all ∷ ms) = (refl, all_mentions-all ms)
all_mentions-all (_ ∷ ms) = all_mentions-all ms

parts-Perm : (ms : List Mention) → Perm (parts ms) ms
unfolding contacts chats channels users all_mentions
parts-Perm [] = Perm.refl []
parts-Perm (contact e n ∷ ms) = Perm.cons (contact e n) (parts-Perm ms)
parts-Perm (chat e n ∷ ms) =
    let m = chat e n in
    Perm.trans (deeper m (contacts ms) (Perm.refl _)) (Perm.cons m (parts-Perm ms))
parts-Perm (channel e n ∷ ms) =
    let m = channel e n in
    Perm.trans (deeper m (contacts ms) (deeper m (chats ms) (Perm.refl _)))
      (Perm.cons m (parts-Perm ms))
parts-Perm (user e n ∷ ms) =
    let m = user e n in
    Perm.trans (deeper m (contacts ms) (deeper m (chats ms) (deeper m (channels ms) (Perm.refl _))))
      (Perm.cons m (parts-Perm ms))
parts-Perm (all ∷ ms) =
    Perm.trans
      (deeper all (contacts ms)
        (deeper all (chats ms) (deeper all (channels ms) (deeper all (users ms) (Perm.refl _)))))
      (Perm.cons all (parts-Perm ms))

-- The four lists hold the mentions of their kind only, and together with the mentions of all they are a rearrangement of the
-- list: no mention is lost, changed or listed twice.
pub filters_partition :
    (ms : List Mention)
    → All IsContact (contacts ms)
      × All IsChat (chats ms)
      × All IsChannel (channels ms)
      × All IsUser (users ms)
      × All (λ m. m ≡ all) (all_mentions ms)
      × Perm (parts ms) ms
filters_partition ms = (
  contacts-IsContact ms,
  chats-IsChat ms,
  channels-IsChannel ms,
  users-IsUser ms,
  all_mentions-all ms,
  parts-Perm ms,
)
