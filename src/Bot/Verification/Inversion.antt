-- ===== src/Bot/Verification/Inversion.antt =====
-- What each check of `verify_request` has shown when it lets a request through.
use pybotx.Common.{
  ◌≡◌, refl, Bool, true, false, Option, none, some, List, [], ◌∷◌, In, Error, Result, ok, err,
  bind_ok, arith,
}
use pybotx.Common.Text.{Str, elem}
use pybotx.Common.Uuid.{Uuid, parse_uuid}
use pybotx.Common.Json.{Json, null, bool, int, float, str, arr, obj, nil, cons, end, field}
use pybotx.Models.BotAccount.{BotAccountWithSecret}
use pybotx.Bot.Verification.Jwt.{catch_decode_error, catch_invalid_token}
use pybotx.Bot.Verification.Defs.{
  get_bot_account, issuer_uuid, issuer_of, audience_of, guard, is_bad_audience, catch_unknown_bot,
  in_set, check_trusted, present, invalid_issuer,
}

-- The account that is found is listed, and has the id.
pub get_bot_account_found :
    (bot_id : Uuid) (credentials : List BotAccountWithSecret) (account : BotAccountWithSecret)
    → get_bot_account bot_id credentials ≡ ok account
    → In account credentials × (account.id ≡ bot_id)
unfolding get_bot_account
get_bot_account_found bot_id [] account h = cc
get_bot_account_found bot_id (a ∷ as') account h =
    ground (arith, get_bot_account_found bot_id as' account)

pub catch_decode_error-eq-ok {ℓ} :
    {A : Type ℓ} (r : Result A) {a : A} → catch_decode_error r ≡ ok a → r ≡ ok a
unfolding catch_decode_error
catch_decode_error-eq-ok (ok a) h = h
catch_decode_error-eq-ok (err e) h = ground arith

pub catch_invalid_token-eq-ok {ℓ} :
    {A : Type ℓ} (r : Result A) {a : A} → catch_invalid_token r ≡ ok a → r ≡ ok a
unfolding catch_invalid_token
catch_invalid_token-eq-ok (ok a) h = h
catch_invalid_token-eq-ok (err e) h = ground arith

pub catch_unknown_bot-eq-ok {ℓ} :
    {A : Type ℓ} (r : Result A) {a : A} → catch_unknown_bot r ≡ ok a → r ≡ ok a
unfolding catch_unknown_bot
catch_unknown_bot-eq-ok (ok a) h = h
catch_unknown_bot-eq-ok (err e) h = ground arith

pub guard-eq-ok : (b : Bool) (e : Error) {u : Unit {0}} → guard b e ≡ ok u → b ≡ true
guard-eq-ok true e h = refl
guard-eq-ok false e h = cc

pub issuer_of-eq-ok : (v : Json) {s : Str} → issuer_of v ≡ ok s → v ≡ str s
unfolding issuer_of
issuer_of-eq-ok null h = cc
issuer_of-eq-ok (str t) h = cc
issuer_of-eq-ok _ h = cc

pub audience_of-eq-ok : (v : Json) {s : Str} → audience_of v ≡ ok s → v ≡ str s
unfolding audience_of
audience_of-eq-ok (str (c ∷ t)) h = cc
audience_of-eq-ok (str []) h = cc
audience_of-eq-ok _ h = cc

pub issuer_uuid-eq-ok : (s : Str) {id : Uuid} → issuer_uuid s ≡ ok id → parse_uuid s ≡ ok id
unfolding issuer_uuid
issuer_uuid-eq-ok s h = ground arith

pub present-eq-ok : (v : Json) {w : Json} → present v ≡ ok w → v ≡ w
unfolding present
present-eq-ok null h = cc
present-eq-ok (str t) h = cc
present-eq-ok _ h = cc

-- A list of one item.
pub is_bad_audience-false :
    (v : Json) → is_bad_audience v ≡ false → (item : Json) × (v ≡ arr (cons item nil))
unfolding is_bad_audience
is_bad_audience-false null h = cc
is_bad_audience-false (arr nil) h = cc
is_bad_audience-false (arr (cons item nil)) h = (item, refl)
is_bad_audience-false (arr (cons a (cons b vs))) h = ground arith
is_bad_audience-false (obj end) h = cc
is_bad_audience-false (obj (field k v fs)) h = cc
is_bad_audience-false (str s) h = ground arith
is_bad_audience-false (bool b) h = ground arith
is_bad_audience-false (int n m) h = ground arith
is_bad_audience-false (float f) h = ground arith

pub in_set-eq-true :
    (v : Json) (trusted : List Str)
    → in_set v trusted ≡ ok true
    → (s : Str) × (v ≡ str s) × (elem s trusted ≡ true)
unfolding in_set
in_set-eq-true null trusted h = cc
in_set-eq-true (str s) trusted h = (s, refl, ground arith)
in_set-eq-true _ trusted h = cc

pub check_trusted-eq-ok :
    (trusted : Option (List Str)) (v : Json) {u : Unit {0}}
    → check_trusted trusted v ≡ ok u
    → (ts : List Str) × (s : Str) × (trusted ≡ some ts) × (v ≡ str s) × (elem s ts ≡ true)
unfolding check_trusted
check_trusted-eq-ok none v h = cc
check_trusted-eq-ok (some []) v h = cc
check_trusted-eq-ok (some (t ∷ ts)) v h = bind_ok (in_set v (t ∷ ts)) _ h λ found e g.
    let (s, same, listed) =
      in_set-eq-true v (t ∷ ts) (ground (arith, guard-eq-ok found invalid_issuer g)) in
    (t ∷ ts, s, refl, same, listed)
