-- ===== src/Models/Markup/Defs.antt =====
-- `Button` and `BaseMarkup`. A markup is its rows; that the caller may still hold a row that it
-- has added is left out.
use pybotx.Common.{
  ℕ, Bool, if◌then◌else◌, List, [], ◌∷◌, ◌++◌, Result, ok, err, value_error, ◌&&◌, ◌>>=◌,
}
use pybotx.Common.Text.{Str}
use pybotx.Common.Json.{Fields}
use pybotx.Missing.{Missing, is_undefined}

pub data ButtonTextAlign : Type 0 where
  left center right : ButtonTextAlign

pub record Button : Type 0 where
  pub label : Str
  pub command : Missing Str
  pub button_data : Fields
  pub text_color : Missing Str
  pub background_color : Missing Str
  pub align : ButtonTextAlign
  pub silent : Bool
  pub width_ratio : Missing ℕ
  pub alert : Missing Str
  pub process_on_client : Missing Bool
  pub link : Missing Str

-- `__post_init__`
unfoldable pub post_init : Button → Result Button
post_init button =
    if is_undefined button.command && is_undefined button.link then err value_error else ok button

abbrev pub ButtonRow : Type 0
ButtonRow = List Button

-- `BaseMarkup`, whose subclasses `BubbleMarkup` and `KeyboardMarkup` add nothing
abbrev pub Markup : Type 0
Markup = List ButtonRow

-- `self._buttons[-1].append(button)`, where there is a last row
unfoldable pub append_to_last : Button → Markup → Markup
append_to_last button [] = []
append_to_last button (row ∷ []) = (row ++ button ∷ []) ∷ []
append_to_last button (row ∷ next ∷ rows) = row ∷ append_to_last button (next ∷ rows)

abbrev pub with_a_row : Markup → Markup
with_a_row [] = [] ∷ []
with_a_row (row ∷ rows) = row ∷ rows

unfoldable pub add_built_button : Button → (new_row : Bool) → Markup → Markup
unfolding append_to_last
add_built_button button new_row buttons =
    if new_row then buttons ++ (button ∷ []) ∷ [] else append_to_last button (with_a_row buttons)

-- The arguments are those of the button's constructor.
unfoldable pub add_button : Button → (new_row : Bool) → Markup → Result Markup
unfolding post_init add_built_button
add_button args new_row buttons =
    if is_undefined args.link && is_undefined args.command
    then err value_error
    else (post_init args >>= λ button. ok (add_built_button button new_row buttons))

unfoldable pub add_row : ButtonRow → Markup → Markup
add_row button_row buttons = buttons ++ button_row ∷ []
