-- ===== src/Models/ApiBase/Defs.antt =====
-- `_remove_undefined`, for dictionaries and for lists, and `jsonable_dict`.
use pybotx.Common.{
  false, List, [], ◌∷◌, Option, none, some, ℕ, ◌+◌, ◌==◌, Bool, not, ◌||◌, if◌then◌else◌,
}
use pybotx.Common.Text.{Str}
use pybotx.Missing.{Missing, given}
use pybotx.Common.Uuid.{Uuid, print_uuid}
use pybotx.Common.Json.{Json, null, bool, int, str, arr, obj, Items, Fields, field}

-- The values of a dumped model: `Undefined`, lists, dictionaries, and anything else, which is kept as it is.
mutual
  pub data Value : Type 0 where
    undefined : Value
    plain : Json → Value
    list : Values → Value
    dict : Entries → Value

  pub data Values : Type 0 where
    nil : Values
    cons : Value → Values → Values

  pub data Entries : Type 0 where
    end : Entries
    entry : Str → Value → Entries → Entries

-- `len`
unfoldable pub count_values : Values → ℕ
count_values nil = 0
count_values (cons v vs) = count_values vs + 1

unfoldable pub count_entries : Entries → ℕ
count_entries end = 0
count_entries (entry k v es) = count_entries es + 1

-- `new_value or len(new_value) == len(value)`, of the two lengths
abbrev pub is_kept : (new old : ℕ) → Bool
is_kept new old = not (new == 0) || new == old

unfoldable mutual
  pub remove_values : Values → Values
  remove_values nil = nil
  remove_values (cons undefined vs) = remove_values vs
  remove_values (cons (plain j) vs) = cons (plain j) (remove_values vs)
  remove_values (cons (list ws) vs) =
      let new = remove_values ws in
      let rest = remove_values vs in
      if is_kept (count_values new) (count_values ws) then cons (list new) rest else rest
  remove_values (cons (dict es) vs) =
      let new = remove_entries es in
      let rest = remove_values vs in
      if is_kept (count_entries new) (count_entries es) then cons (dict new) rest else rest

  pub remove_entries : Entries → Entries
  remove_entries end = end
  remove_entries (entry k undefined es) = remove_entries es
  remove_entries (entry k (plain j) es) = entry k (plain j) (remove_entries es)
  remove_entries (entry k (list ws) es) =
      let new = remove_values ws in
      let rest = remove_entries es in
      if is_kept (count_values new) (count_values ws) then entry k (list new) rest else rest
  remove_entries (entry k (dict ds) es) =
      let new = remove_entries ds in
      let rest = remove_entries es in
      if is_kept (count_entries new) (count_entries ds) then entry k (dict new) rest else rest

-- What `json.loads` reads back of what `json.dumps` wrote, of values that hold no `Undefined`
unfoldable mutual
  json_value : Value → Json
  json_value undefined = null
  json_value (plain j) = j
  json_value (list vs) = arr (json_values vs)
  json_value (dict es) = obj (json_entries es)

  json_values : Values → Items
  json_values nil = Items.nil
  json_values (cons v vs) = Items.cons (json_value v) (json_values vs)

  pub json_entries : Entries → Fields
  json_entries end = Fields.end
  json_entries (entry k v es) = field k (json_value v) (json_entries es)

-- `PayloadBaseModel.jsonable_dict`, of what `model_dump` returns
unfoldable pub jsonable_dict : Entries → Fields
unfolding remove_entries json_entries
jsonable_dict es = json_entries (remove_entries es)

-- A list of values, and a field that may be skipped
abbrev pub values_of {ℓ} : {A : Type ℓ} → (A → Value) → List A → Values
values_of f [] = nil
values_of f (x ∷ xs) = cons (f x) (values_of f xs)

abbrev pub missing_value {ℓ} : {A : Type ℓ} → (A → Value) → Missing A → Value
missing_value f Missing.undefined = undefined
missing_value f (given x) = f x

-- A value or `None`
abbrev pub optional_value {ℓ} : {A : Type ℓ} → (A → Value) → Option A → Value
optional_value f none = plain null
optional_value f (some x) = f x

abbrev pub text_value : Str → Value
text_value s = plain (str s)

abbrev pub int_value : ℕ → Value
int_value n = plain (int false n)

abbrev pub bool_value : Bool → Value
bool_value b = plain (bool b)

abbrev pub uuid_value : Uuid → Value
uuid_value id = plain (str (print_uuid id))

abbrev pub uuid_values : List Uuid → Value
uuid_values ids = list (values_of uuid_value ids)

-- A dictionary of the caller, whose values are JSON values
abbrev pub dict_value : Fields → Value
dict_value fs = plain (obj fs)
