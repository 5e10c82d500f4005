-- ===== src/Common/Json.antt =====
-- Values that `json.loads` returns, and what Python's dynamic operations do on them.
use pybotx.Common.{
  ℕ, ◌*◌, ◌^◌, ◌≡◌, Bool, true, false, not, Option, none, some, List, [], ◌∷◌, Result, err,
  type_error, attribute_error, ◌==◌, if◌then◌else◌, arith,
}
use pybotx.Common.Text.{Str, str_eq, str_eq_iff, is_empty}
use pybotx.Common.Uuid.{Uuid, parse_uuid}

-- A finite `float` is ±num / 2 ^ exp.
pub data Float : Type 0 where
  finite : (negative : Bool) (num exp : ℕ) → Float
  infinite : (negative : Bool) → Float
  nan : Float

mutual
  pub data Json : Type 0 where
    null : Json
    bool : Bool → Json
    int : (negative : Bool) (magnitude : ℕ) → Json
    float : Float → Json
    str : Str → Json
    arr : Items → Json
    obj : Fields → Json

  pub data Items : Type 0 where
    nil : Items
    cons : Json → Items → Items

  pub data Fields : Type 0 where
    end : Fields
    field : Str → Json → Fields → Fields

abbrev pub items : Items → List Json
items nil = []
items (cons v vs) = v ∷ items vs

-- `d.get(k)`: a missing key and a `null` both give `None`.
unfoldable pub get : Str → Fields → Json
get k end = null
get k (field j v fs) = if str_eq j k then v else get k fs

-- `bool(v)`
unfoldable pub truthy : Json → Bool
truthy null = false
truthy (bool b) = b
truthy (int negative n) = not (n == 0)
truthy (float (finite negative num exp)) = not (num == 0)
truthy (float (infinite negative)) = true
truthy (float nan) = true
truthy (str s) = not (is_empty s)
truthy (arr nil) = false
truthy (arr (cons v vs)) = true
truthy (obj end) = false
truthy (obj (field k v fs)) = true

-- `v == 2`: an `int`, or a `float` of the same value
unfoldable pub is_two : Json → Bool
is_two (int false n) = n == 2
is_two (float (finite false num exp)) = num == 2 * 2 ^ exp
is_two null = false
is_two _ = false

-- `isinstance(v, str)`, with the text
abbrev pub as_str : Json → Option Str
as_str (str s) = some s
as_str null = none
as_str _ = none

-- `v == s` for a text `s`
unfoldable pub is_str : Json → Str → Bool
is_str (str t) s = str_eq t s
is_str null s = false
is_str _ s = false

pub is_str→≡ : (v : Json) (s : Str) → is_str v s ≡ true → v ≡ str s
unfolding is_str
is_str→≡ (str t) s h = ground (arith, str_eq_iff t s)
is_str→≡ null s h = cc
is_str→≡ _ s h = cc

-- `UUID(v)`: of `None` a `TypeError`, and of any other value that is no text an `AttributeError`
unfoldable pub uuid_of : Json → Result Uuid
uuid_of (str s) = parse_uuid s
uuid_of null = err type_error
uuid_of _ = err attribute_error
