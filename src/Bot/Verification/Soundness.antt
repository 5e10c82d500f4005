-- ===== src/Bot/Verification/Soundness.antt =====
-- What an accepted request has shown.
use pybotx.Common.{
  ◌≡◌, refl, sym, ◌∙◌, ap, Bool, true, false, not, ◌⊎◌, inl, inr, Option, none, some, List, [], ◌∷◌,
  In, Bool-cases, get_last?, Error, Result, ok, or_raise, index_error, ◌>>=◌, bind_ok, subst,
  if◌then◌else◌,
}
use pybotx.Common.Text.{Str, codes, str_eq, str_eq→≡, elem, split}
use pybotx.Common.Uuid.{parse_uuid}
use pybotx.Common.Dict.{lookup}
use pybotx.Common.Json.{Json, str, arr, nil, cons, Fields, get, is_str, is_str→≡, uuid_of}
use pybotx.Models.BotAccount.{BotAccountWithSecret, host}
use pybotx.Bot.Verification.Jwt.{Decode, catch_decode_error, catch_invalid_token}
use pybotx.Bot.Verification.Defs.{
  get_bot_account, is_v2_payload, unverified_call, issuer_uuid, issuer_of, audience_of, guard,
  v2_call, v1_call, is_bad_audience, last_item, catch_unknown_bot, check_trusted, present,
  header_of, verify_request_v2, verify_request_v1, verify_request, invalid_audience,
}
use pybotx.Bot.Verification.Inversion.{
  get_bot_account_found, catch_decode_error-eq-ok, catch_invalid_token-eq-ok,
  catch_unknown_bot-eq-ok, guard-eq-ok, issuer_of-eq-ok, audience_of-eq-ok, issuer_uuid-eq-ok,
  present-eq-ok, is_bad_audience-false, check_trusted-eq-ok,
}

-- A V2 token for an account: its issuer is the bot, its audience the host, and the signature holds
-- under the account's secret, with issuer and audience checked.
pub record IsV2 (decode : Decode) (token : Str) (payload : Fields) (account : BotAccountWithSecret)
    : Type 0 where
  pub issuer : Str
  pub host_name : Str
  pub claims : Fields
  pub issued : get (codes "iss") payload ≡ str issuer
  pub bot : parse_uuid issuer ≡ ok account.id
  pub hosted : host account ≡ ok host_name
  pub audience : get (codes "aud") payload ≡ str host_name
  pub signed : decode (v2_call token account host_name) ≡ ok claims

-- A V1 token: its audience is the bot alone, and its issuer the host or a trusted one.
pub record IsV1 (decode : Decode) (token : Str) (payload : Fields)
    (trusted_issuers : Option (List Str)) (account : BotAccountWithSecret) : Type 0 where
  pub item : Json
  pub issuer : Str
  pub host_name : Str
  pub claims : Fields
  pub audience : get (codes "aud") payload ≡ arr (cons item nil)
  pub bot : uuid_of item ≡ ok account.id
  pub hosted : host account ≡ ok host_name
  pub issued : get (codes "iss") payload ≡ str issuer
  pub known :
      (issuer ≡ host_name)
      ⊎ ((ts : List Str) × (trusted_issuers ≡ some ts) × (elem issuer ts ≡ true))
  pub signed : decode (v1_call token account host_name) ≡ ok claims

-- The token stands last in the header.
pub record IsVerified (decode : Decode) (headers : List (Str × Str))
    (trusted_issuers : Option (List Str)) (account : BotAccountWithSecret) : Type 0 where
  pub header : Str
  pub token : Str
  pub payload : Fields
  pub given : lookup (codes "authorization") headers ≡ some header
  pub last : get_last? (split header) ≡ some token
  pub read : decode (unverified_call token) ≡ ok payload
  pub version :
      ((is_v2_payload payload ≡ true) × IsV2 decode token payload account)
      ⊎ ((is_v2_payload payload ≡ false) × IsV1 decode token payload trusted_issuers account)

header_of-eq-ok : (header : Option Str) {s : Str} → header_of header ≡ ok s → header ≡ some s
unfolding header_of
header_of-eq-ok none h = cc
header_of-eq-ok (some []) h = cc
header_of-eq-ok (some (c ∷ s)) h = cc

or_raise-eq-ok : {A : Type 0} (e : Error) (o : Option A) {a : A} → or_raise e o ≡ ok a → o ≡ some a
or_raise-eq-ok e none h = cc
or_raise-eq-ok e (some a) h = cc

not-eq-true : (b : Bool) → not b ≡ true → b ≡ false
not-eq-true true h = cc
not-eq-true false h = refl

-- The issuer of a V1 token.
issuer_known :
    (trusted_issuers : Option (List Str)) (issuer : Json) (name : Str) {u : Unit {0}}
    → (if is_str issuer name then ok tt else check_trusted trusted_issuers issuer) ≡ ok u
    → (text : Str) × (issuer ≡ str text)
      × ((text ≡ name) ⊎ ((ts : List Str) × (trusted_issuers ≡ some ts) × (elem text ts ≡ true)))
issuer_known trusted_issuers issuer name h = elim (Bool-cases (is_str issuer name)) [
  | inl e ↦ (name, is_str→≡ issuer name e, inl refl)
  | inr e ↦
      let (ts, text, some_ts, same, listed) =
        check_trusted-eq-ok trusted_issuers issuer (rw e at h) in
      (text, same, inr (ts, some_ts, listed))
]

module _ (decode : Decode) (token : Str) (payload : Fields)
    (credentials : List BotAccountWithSecret) where
  -- The lookup of the bot that a V1 audience names.
  abbrev sole_account : Json → Result BotAccountWithSecret
  sole_account audience =
      last_item audience >>= λ item. uuid_of item >>= λ bot_id. get_bot_account bot_id credentials

  sole_account_found :
      (item : Json) (account : BotAccountWithSecret)
      → sole_account (arr (cons item nil)) ≡ ok account
      → In account credentials × (uuid_of item ≡ ok account.id)
  unfolding last_item
  sole_account_found item account h = bind_ok (uuid_of item) _ h λ bot_id e1 h1.
      let (listed, id) = get_bot_account_found bot_id credentials account h1 in
      (listed, e1 ∙ ap ok (sym id))

  verify_request_v2_sound :
      (account : BotAccountWithSecret)
      → verify_request_v2 decode token payload credentials ≡ ok account
      → In account credentials × IsV2 decode token payload account
  unfolding verify_request_v2
  verify_request_v2_sound account h =
      bind_ok (issuer_of (get (codes "iss") payload)) _ h λ issuer e1 h1.
        bind_ok (issuer_uuid issuer) _ h1 λ bot_id e2 h2.
          bind_ok (get_bot_account bot_id credentials) _ h2 λ found e3 h3.
            bind_ok (audience_of (get (codes "aud") payload)) _ h3 λ audience e4 h4.
              bind_ok (host found) _ h4 λ name e5 h5.
                bind_ok (guard (str_eq audience name) invalid_audience) _ h5 λ u e6 h6.
                  bind_ok (catch_invalid_token (decode (v2_call token found name))) _ h6
                    λ claims e7 h7.
                      let same : found ≡ account = cc in
                      let hosted : audience ≡ name = str_eq→≡ audience name (guard-eq-ok _ _ e6) in
                      let (listed, id) = get_bot_account_found bot_id credentials found e3 in
                      subst (λ a. In a credentials × IsV2 decode token payload a) same
                        (
                          listed,
                          record {
                            issuer = issuer;
                            host_name = name;
                            claims = claims;
                            issued = issuer_of-eq-ok _ e1;
                            bot = issuer_uuid-eq-ok issuer e2 ∙ ap ok (sym id);
                            hosted = e5;
                            audience = audience_of-eq-ok _ e4 ∙ ap str hosted;
                            signed = catch_invalid_token-eq-ok _ e7;
                          },
                        )

  verify_request_v1_sound :
      (trusted_issuers : Option (List Str)) (account : BotAccountWithSecret)
      → verify_request_v1 decode token payload credentials trusted_issuers ≡ ok account
      → In account credentials × IsV1 decode token payload trusted_issuers account
  unfolding verify_request_v1
  verify_request_v1_sound trusted_issuers account h =
      bind_ok (guard (not (is_bad_audience (get (codes "aud") payload))) invalid_audience) _ h
        λ u e0 h0.
          bind_ok (catch_unknown_bot (sole_account (get (codes "aud") payload))) _ h0 λ found e1 h1.
            bind_ok (host found) _ h1 λ name e2 h2.
              bind_ok (catch_invalid_token (decode (v1_call token found name))) _ h2 λ claims e3 h3.
                bind_ok (present (get (codes "iss") payload)) _ h3 λ issuer e4 h4.
                  bind_ok
                    (if is_str issuer name then ok tt else check_trusted trusted_issuers issuer) _
                    h4
                    λ v e5 h5.
                      let same : found ≡ account = cc in
                      let (item, one) =
                        is_bad_audience-false (get (codes "aud") payload)
                          (not-eq-true _ (guard-eq-ok _ _ e0)) in
                      let (listed, bot) =
                        sole_account_found item found
                          (ap sole_account (sym one) ∙ catch_unknown_bot-eq-ok _ e1) in
                      let (text, is_text, known) = issuer_known trusted_issuers issuer name e5 in
                      subst (λ a. In a credentials × IsV1 decode token payload trusted_issuers a)
                        same
                        (
                          listed,
                          record {
                            item = item;
                            issuer = text;
                            host_name = name;
                            claims = claims;
                            audience = one;
                            bot = bot;
                            hosted = e2;
                            issued = present-eq-ok _ e4 ∙ is_text;
                            known = known;
                            signed = catch_invalid_token-eq-ok _ e3;
                          },
                        )

-- An accepted request has a token whose signature was checked with the secret of the account that is
-- returned, and that account is one of the given ones: a V2 token names the bot as issuer and its
-- host as audience, a V1 token names the bot as its only audience and the host or a trusted issuer.
pub verify_request_sound :
    (decode : Decode) (headers : List (Str × Str)) (credentials : List BotAccountWithSecret)
    (trusted_issuers : Option (List Str)) (account : BotAccountWithSecret)
    → verify_request decode (some headers) credentials trusted_issuers ≡ ok account
    → In account credentials × IsVerified decode headers trusted_issuers account
unfolding verify_request
verify_request_sound decode headers credentials trusted_issuers account h =
    bind_ok (header_of (lookup (codes "authorization") headers)) _ h λ header e1 h1.
      bind_ok (or_raise index_error (get_last? (split header))) _ h1 λ token e2 h2.
        bind_ok (catch_decode_error (decode (unverified_call token))) _ h2 λ payload e3 h3.
          let given = header_of-eq-ok _ e1 in
          let last = or_raise-eq-ok index_error _ e2 in
          let read = catch_decode_error-eq-ok _ e3 in
          elim (Bool-cases (is_v2_payload payload)) [
            | inl v ↦
                let (listed, shown) =
                  verify_request_v2_sound decode token payload credentials account (rw v at h3) in
                (
                  listed,
                  record {
                    header = header;
                    token = token;
                    payload = payload;
                    given = given;
                    last = last;
                    read = read;
                    version = inl (v, shown);
                  },
                )
            | inr v ↦
                let (listed, shown) =
                  verify_request_v1_sound decode token payload credentials trusted_issuers account
                    (rw v at h3) in
                (
                  listed,
                  record {
                    header = header;
                    token = token;
                    payload = payload;
                    given = given;
                    last = last;
                    read = read;
                    version = inr (v, shown);
                  },
                )
          ]
