-- ===== src/Bot/Verification/Jwt.antt =====
-- The call of `jwt.decode` (PyJWT, a package that the sources import). A development over it takes
-- the function as a parameter; these are its arguments and the handlers of its exceptions.
use pybotx.Common.{
  ℕ, Bool, Option, List, [], ◌∷◌, unverified_request, jwt_decode_error, jwt_invalid_token, Result,
  ok, err,
}
use pybotx.Common.Text.{Str, codes}
use pybotx.Common.Json.{Fields}

-- The arguments; a flag of `options` that a call leaves out has PyJWT's default, true.
pub record DecodeCall : Type 0 where
  pub jwt : Str
  pub key : Option Str
  pub algorithms : List Str
  pub issuer : Option Str
  pub audience : Option Str
  pub leeway : ℕ
  pub verify_signature : Bool
  pub verify_aud : Bool
  pub verify_iss : Bool

abbrev pub Decode : Type 0
Decode = DecodeCall → Result Fields

abbrev pub hs256 : List Str
hs256 = codes "HS256" ∷ []

-- `except jwt.DecodeError as e: raise UnverifiedRequestError(e.args[0])`
unfoldable pub catch_decode_error {ℓ} : {A : Type ℓ} → Result A → Result A
catch_decode_error (err (jwt_decode_error m)) = err (unverified_request m)
catch_decode_error (err e) = err e
catch_decode_error (ok a) = ok a

-- `except jwt.InvalidTokenError as e`, of which `DecodeError` is a subclass
unfoldable pub catch_invalid_token {ℓ} : {A : Type ℓ} → Result A → Result A
catch_invalid_token (err (jwt_decode_error m)) = err (unverified_request m)
catch_invalid_token (err (jwt_invalid_token m)) = err (unverified_request m)
catch_invalid_token (err e) = err e
catch_invalid_token (ok a) = ok a
