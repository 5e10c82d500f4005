-- ===== src/Common/Results.antt =====
-- Exceptions as values. A function that may raise returns a `Result`; each exception class that
-- some caller catches, or that escapes to the WSGI server, has a constructor.
use mathlib.Core.Path.{◌≡◌, refl}
use mathlib.Core.Option.{Option, none, some}
use mathlib.Core.List.{List, [], ◌∷◌}
use Prim.Native.Nat.{ℕ}

pub data Error : Type 0 where
  index_error key_error attribute_error type_error value_error assertion_error not_implemented :
      Error
  -- pybotx/bot/exceptions.py: the message, or the bot id
  headers_not_provided : Error
  unverified_request : List ℕ → Error
  unknown_bot_account : ℕ → Error
  -- pybotx/bot/api/exceptions.py
  unsupported_bot_api_version unknown_system_event : Error
  -- `urllib3.exceptions.HTTPError`
  http_error : Error
  -- pydantic
  validation_error : Error
  -- `json.JSONDecodeError`, a subclass of `ValueError` that some callers catch
  json_decode_error : Error
  -- subclasses of `jwt.InvalidTokenError`, with `args[0]`
  jwt_decode_error jwt_invalid_token : List ℕ → Error

pub data Result {ℓ} (A : Type ℓ) : Type ℓ where
  ok : A → Result A
  err : Error → Result A

infixl 5 ◌>>=◌
abbrev pub ◌>>=◌ {ℓ κ} : {A : Type ℓ} {B : Type κ} → Result A → (A → Result B) → Result B
ok a >>= f = f a
err e >>= f = err e

-- The value of an expression that raises `e` where there is none.
abbrev pub or_raise {ℓ} : {A : Type ℓ} → Error → Option A → Result A
or_raise e none = err e
or_raise e (some a) = ok a

-- A list comprehension whose body may raise: the first exception stops it.
abbrev pub map_result {ℓ κ} : {A : Type ℓ} {B : Type κ} → (A → Result B) → List A → Result (List B)
map_result f [] = ok []
map_result f (x ∷ xs) = f x >>= λ y. map_result f xs >>= λ ys. ok (y ∷ ys)

-- A chain that has a value: what follows may use the first value and the two equations.
pub bind_ok {ℓ κ μ} :
    {A : Type ℓ} {B : Type κ} {P : Type μ} (m : Result A) (f : A → Result B) {b : B}
    → (m >>= f) ≡ ok b
    → ((a : A) → m ≡ ok a → f a ≡ ok b → P)
    → P
bind_ok (ok a) f h k = k a refl h
bind_ok (err e) f h k = absurd (cc h)

pub ok-injective {ℓ} : {A : Type ℓ} {a b : A} → ok a ≡ ok b → a ≡ b
ok-injective h = cc h

-- A chain has a value if its parts have.
pub bind_total {ℓ κ} :
    {A : Type ℓ} {B : Type κ} (m : Result A) (f : A → Result B)
    → (a : A) × (m ≡ ok a)
    → ((a : A) → (b : B) × (f a ≡ ok b))
    → (b : B) × ((m >>= f) ≡ ok b)
bind_total m f (a, e) k = let (b, h) = k a in (b, rw e h)
