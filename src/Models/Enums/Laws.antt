-- ===== src/Models/Enums/Laws.antt =====
-- What the lookups and conversions of enums.py promise.
use pybotx.Common.{
  ◌≡◌, ◌≢◌, refl, ap, ◌↔◌, ◌⊎◌, inl, inr, Bool-cases, List, [], ◌∷◌, Option, none, some, ok, err,
  not_implemented, ◌>>=◌, arith, In,
}
use pybotx.Common.Text.{Str, str_eq, str_eq→≡, str_eq_iff}
use pybotx.Models.Enums.Types.{ApiChatTypes, ChatTypes, MentionTypes, ApiAttachmentTypes}
use pybotx.Models.Enums.Values.{
  member?, mention_types_value, mention_types_members, api_chat_types_value, api_chat_types_members,
}
use pybotx.Models.Enums.Convert.{
  Incoming, supported, unsupported, OrText, member, text, convert_chat_type_to_domain,
  convert_chat_type_from_domain, convert_attachment_type_to_domain,
  convert_attachment_type_from_domain, chat_type_to_domain_mapping, of_coerced,
}

module _ {A : Type 0} (value : A → Str) where
  pub value-member? :
      (members : List A) (s : Str) {a : A} → member? value members s ≡ some a → value a ≡ s
  unfolding member?
  value-member? [] s h = cc
  value-member? (b ∷ members) s h = elim (Bool-cases (str_eq (value b) s)) [
    | inl e ↦ ground (arith, str_eq→≡ (value b) s e, h)
    | inr e ↦ value-member? members s (rw (← h, e, member?))
  ]

  value_ne_of_member?-eq-none :
      (members : List A) (a : A) (s : Str)
      → In a members
      → member? value members s ≡ none
      → value a ≢ s
  unfolding member?
  value_ne_of_member?-eq-none [] a s i h = elim i [ ]
  value_ne_of_member?-eq-none (b ∷ members) a s (inl e) h =
      ground (arith, str_eq_iff (value b) s, ap value e)
  value_ne_of_member?-eq-none (b ∷ members) a s (inr i) h =
      ground (arith, value_ne_of_member?-eq-none members a s i)

  member?-eq-none :
      (members : List A) (s : Str) → ((a : A) → value a ≢ s) → member? value members s ≡ none
  unfolding member?
  member?-eq-none [] s h = refl
  member?-eq-none (b ∷ members) s h =
      ground (arith, h b, str_eq→≡ (value b) s, member?-eq-none members s h)

-- Looking a mention type up by its value finds it.
pub mention_types_member :
    (t : MentionTypes)
    → member? mention_types_value mention_types_members (mention_types_value t) ≡ some t
unfolding member? mention_types_value
mention_types_member MentionTypes.contact = refl
mention_types_member MentionTypes.chat = refl
mention_types_member MentionTypes.channel = refl
mention_types_member MentionTypes.user = refl
mention_types_member MentionTypes.all = refl

-- Every chat type that the domain knows is sent as an API type that is read back as the same type.
pub chat_type_roundtrip :
    (t : ChatTypes)
    → (convert_chat_type_from_domain t >>= λ a. convert_chat_type_to_domain (member a))
      ≡ ok (supported t)
unfolding convert_chat_type_to_domain convert_chat_type_from_domain chat_type_to_domain_mapping
chat_type_roundtrip ChatTypes.personal_chat = refl
chat_type_roundtrip _ = refl

-- An attachment type that comes in is sent back as the type it came as, and only a sticker cannot be sent.
pub attachment_type_roundtrip :
    (a : ApiAttachmentTypes)
    → ((a ≢ ApiAttachmentTypes.sticker)
        × ((convert_attachment_type_to_domain a >>= convert_attachment_type_from_domain) ≡ ok a))
      ⊎ ((a ≡ ApiAttachmentTypes.sticker)
          × ((convert_attachment_type_to_domain a >>= convert_attachment_type_from_domain)
              ≡ err not_implemented))
unfolding convert_attachment_type_to_domain convert_attachment_type_from_domain
attachment_type_roundtrip ApiAttachmentTypes.sticker = inr (refl, refl)
attachment_type_roundtrip _ = inl (cc, refl)

api_chat_types-In : (a : ApiChatTypes) → In a api_chat_types_members
api_chat_types-In ApiChatTypes.chat = inl refl
api_chat_types-In ApiChatTypes.notes = inr (inl refl)
api_chat_types-In ApiChatTypes.group_chat = inr (inr (inl refl))
api_chat_types-In ApiChatTypes.channel = inr (inr (inr (inl refl)))
api_chat_types-In ApiChatTypes.thread = inr (inr (inr (inr (inl refl))))
api_chat_types-In ApiChatTypes.voex_call = inr (inr (inr (inr (inr (inl refl)))))

-- Every API chat type has a type in the domain.
pub chat_type_mapped :
    (a : ApiChatTypes)
    → (t : ChatTypes) × (convert_chat_type_to_domain (member a) ≡ ok (supported t))
unfolding convert_chat_type_to_domain chat_type_to_domain_mapping
chat_type_mapped ApiChatTypes.chat = (_, refl)
chat_type_mapped _ = (_, refl)

of_coerced_total :
    (o : Option ApiChatTypes)
    → (t : Incoming ChatTypes) × (of_coerced api_chat_types_value api_chat_types_members
          chat_type_to_domain_mapping o
        ≡ ok t)
of_coerced_total none = (unsupported, refl)
of_coerced_total (some a) =
    let (t, e) = chat_type_mapped a in (supported t, unfold convert_chat_type_to_domain in e)

-- No chat type that comes in raises.
pub chat_type_total :
    (x : OrText ApiChatTypes) → (t : Incoming ChatTypes) × (convert_chat_type_to_domain x ≡ ok t)
unfolding convert_chat_type_to_domain
chat_type_total x = of_coerced_total _

unsupported_of_coerced :
    (o : Option ApiChatTypes)
    → of_coerced api_chat_types_value api_chat_types_members chat_type_to_domain_mapping o
      ≡ ok unsupported
    → o ≡ none
unsupported_of_coerced none h = refl
unsupported_of_coerced (some a) h =
    let (t, e) = chat_type_mapped a in (unfold convert_chat_type_to_domain in cc e)

-- A chat type that comes in as text is "UNSUPPORTED" exactly when no API chat type has that value.
pub chat_type_unsupported_iff :
    (s : Str)
    → (convert_chat_type_to_domain (text s) ≡ ok unsupported)
      ↔ ((a : ApiChatTypes) → api_chat_types_value a ≢ s)
unfolding convert_chat_type_to_domain
chat_type_unsupported_iff s = (
  λ h a.
      value_ne_of_member?-eq-none api_chat_types_value api_chat_types_members a s
        (api_chat_types-In a) (unsupported_of_coerced _ h),
  λ h. rw (member?-eq-none api_chat_types_value api_chat_types_members s h) refl,
)
