-- ===== src/Models/Markup/Api.antt =====
-- `api_button_from_domain` and `api_markup_from_domain`, with what `model_dump` gives of their results.
use pybotx.Common.{ℕ, Bool, true, false, List, map}
use pybotx.Common.Text.{Str, codes}
use pybotx.Common.Json.{obj, Fields}
use pybotx.Missing.{Missing, given}
use pybotx.Models.ApiBase.{
  Value, plain, list, dict, Entries, entry, values_of, missing_value, text_value, int_value,
  bool_value,
}
use pybotx.Models.Markup.Defs.{ButtonTextAlign, left, center, right, Button, Markup}

pub record BotXApiButtonOptions : Type 0 where
  pub silent : Missing Bool
  pub font_color : Missing Str
  pub background_color : Missing Str
  pub align : Missing ButtonTextAlign
  pub h_size : Missing ℕ
  -- `Literal[True]` and `Literal["client"]`: given or not
  pub show_alert : Missing Bool
  pub alert_text : Missing Str
  pub handler : Missing Str
  pub link : Missing Str

pub record BotXApiButton : Type 0 where
  pub command : Missing Str
  pub label : Str
  pub button_data : Fields
  pub opts : BotXApiButtonOptions

abbrev pub BotXApiMarkup : Type 0
BotXApiMarkup = List (List BotXApiButton)

abbrev pub show_alert_of : Missing Str → Missing Bool
show_alert_of Missing.undefined = Missing.undefined
show_alert_of (given alert) = given true

abbrev pub client_handler : Missing Str
client_handler = given (codes "client")

-- `handler` after both tests
abbrev pub button_handler : (process_on_client : Missing Bool) (link : Missing Str) → Missing Str
button_handler process_on_client (given url) = client_handler
button_handler (given true) Missing.undefined = client_handler
button_handler (given false) Missing.undefined = Missing.undefined
button_handler Missing.undefined Missing.undefined = Missing.undefined

unfoldable pub api_button_from_domain : Button → BotXApiButton
api_button_from_domain button = record {
  command = button.command;
  label = button.label;
  button_data = button.button_data;
  opts = record {
    silent = given button.silent;
    font_color = button.text_color;
    background_color = button.background_color;
    align = given button.align;
    h_size = button.width_ratio;
    show_alert = show_alert_of button.alert;
    alert_text = button.alert;
    handler = button_handler button.process_on_client button.link;
    link = button.link;
  };
}

unfoldable pub api_markup_from_domain : Markup → BotXApiMarkup
unfolding api_button_from_domain
api_markup_from_domain markup = map (map api_button_from_domain) markup

-- `ButtonTextAlign(…).value`
abbrev pub button_text_align_value : ButtonTextAlign → Str
button_text_align_value left = codes "left"
button_text_align_value center = codes "center"
button_text_align_value right = codes "right"

unfoldable pub button_options_dump : BotXApiButtonOptions → Entries
button_options_dump opts = entry (codes "silent") (missing_value bool_value opts.silent) (
    entry (codes "font_color") (missing_value text_value opts.font_color) (
      entry (codes "background_color") (missing_value text_value opts.background_color) (
        entry (codes "align")
          (missing_value (λ a. text_value (button_text_align_value a)) opts.align)
          (entry (codes "h_size") (missing_value int_value opts.h_size) (
            entry (codes "show_alert") (missing_value bool_value opts.show_alert) (
              entry (codes "alert_text") (missing_value text_value opts.alert_text) (
                entry (codes "handler") (missing_value text_value opts.handler)
                  (entry (codes "link") (missing_value text_value opts.link) Entries.end))))))))

unfoldable pub button_dump : BotXApiButton → Entries
unfolding button_options_dump
button_dump button = entry (codes "command") (missing_value text_value button.command) (
    entry (codes "label") (text_value button.label) (
      entry (codes "data") (plain (obj button.button_data))
        (entry (codes "opts") (dict (button_options_dump button.opts)) Entries.end)))

unfoldable pub markup_dump : BotXApiMarkup → Value
unfolding button_dump
markup_dump markup =
    list (values_of (λ row. list (values_of (λ button. dict (button_dump button)) row)) markup)
