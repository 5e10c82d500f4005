-- ===== src/Client/SmartApps/Manifest.antt =====
-- The manifest of a smart app.
use pybotx.Common.{Bool, Option, List, Result, if◌then◌else◌, ◌&&◌}
use pybotx.Common.Text.{Str, codes}
use pybotx.Common.Uuid.{Uuid}
use pybotx.Common.Json.{Json}
use pybotx.Missing.{Missing, is_undefined}
use pybotx.Models.ApiBase.{
  Value, undefined, list, dict, Entries, entry, values_of, missing_value, optional_value,
  text_value, bool_value, uuid_values, jsonable_dict,
}
use pybotx.Client.Action.{Action}
use pybotx.Client.Http.{Environment, with_json}
use pybotx.Client.Auth.{status_handlers, Endpoint, execute}

-- `SmartappManifestWebLayoutChoices`
pub data WebLayoutChoices : Type 0 where
  minimal half full : WebLayoutChoices

abbrev web_layout_value : WebLayoutChoices → Value
web_layout_value minimal = text_value (codes "minimal")
web_layout_value half = text_value (codes "half")
web_layout_value full = text_value (codes "full")

-- `SmartappManifestIosParams`, and `SmartappManifestAndroidParams`
pub record LayoutParams : Type 0 where
  pub fullscreen_layout : Bool

pub record SmartappManifestWebParams : Type 0 where
  pub default_layout : WebLayoutChoices
  pub expanded_layout : WebLayoutChoices
  pub allowed_layouts : Option (List WebLayoutChoices)
  pub always_pinned : Bool

pub record SmartappManifestUnreadCounterParams : Type 0 where
  pub user_huid : List Uuid
  pub group_chat_id : List Uuid
  pub app_id : List Str

pub record SmartappManifest : Type 0 where
  pub ios : LayoutParams
  pub android : LayoutParams
  pub web : SmartappManifestWebParams
  pub unread_counter_link : SmartappManifestUnreadCounterParams
  pub store_on_close : Bool
  pub preload_in_background : Bool
  pub link_regex : Option Str

-- The arguments of `send_smartapp_manifest`; they give `aurora` no value.
pub record ManifestUpdate : Type 0 where
  pub ios : Missing LayoutParams
  pub android : Missing LayoutParams
  pub web_layout : Missing SmartappManifestWebParams
  pub unread_counter : Missing SmartappManifestUnreadCounterParams
  pub store_on_close : Missing Bool
  pub preload_in_background : Missing Bool
  pub link_regex : Missing (Option Str)

abbrev layout_dump : LayoutParams → Value
layout_dump p =
    dict (entry (codes "fullscreen_layout") (bool_value p.fullscreen_layout) Entries.end)

abbrev web_dump : SmartappManifestWebParams → Value
web_dump p = dict (
    entry (codes "default_layout") (web_layout_value p.default_layout) (
      entry (codes "expanded_layout") (web_layout_value p.expanded_layout) (
        entry (codes "allowed_layouts")
          (optional_value (λ ls. list (values_of web_layout_value ls)) p.allowed_layouts)
          (entry (codes "always_pinned") (bool_value p.always_pinned) Entries.end))))

abbrev unread_counter_dump : SmartappManifestUnreadCounterParams → Value
unread_counter_dump p = dict (
    entry (codes "user_huid") (uuid_values p.user_huid) (
      entry (codes "group_chat_id") (uuid_values p.group_chat_id)
        (entry (codes "app_id") (list (values_of text_value p.app_id)) Entries.end)))

-- `SmartappManifestPayload`
unfoldable pub manifest_dump : ManifestUpdate → Entries
manifest_dump m = entry (codes "ios") (missing_value layout_dump m.ios) (
    entry (codes "android") (missing_value layout_dump m.android) (
      entry (codes "web") (missing_value web_dump m.web_layout) (
        entry (codes "aurora") undefined (
          entry (codes "unread_counter_link") (missing_value unread_counter_dump m.unread_counter) (
            entry (codes "store_on_close") (missing_value bool_value m.store_on_close) (
              entry (codes "preload_in_background")
                (missing_value bool_value m.preload_in_background)
                (entry (codes "link_regex") (missing_value (optional_value text_value) m.link_regex)
                  Entries.end)))))))

-- `BotXAPISmartAppManifestRequestPayload.from_domain`
unfoldable pub manifest_payload : ManifestUpdate → Entries
unfolding manifest_dump
manifest_payload m =
    entry (codes "manifest")
      (dict (
        if is_undefined m.web_layout && is_undefined m.unread_counter
        then Entries.end
        else manifest_dump m))
      Entries.end

unfoldable pub smartapp_manifest_method : Endpoint
smartapp_manifest_method = record {
  method = codes "POST";
  path = codes "/api/v1/botx/smartapps/manifest";
  handlers = status_handlers;
}

module _ ⦃env : Environment⦄ where
  unfoldable pub send_smartapp_manifest :
      (validate : Json → Result SmartappManifest)
      → (bot_id : Uuid) → ManifestUpdate
      → Action SmartappManifest
  unfolding manifest_payload jsonable_dict execute smartapp_manifest_method
  send_smartapp_manifest validate bot_id update =
      execute smartapp_manifest_method validate bot_id
        (with_json (jsonable_dict (manifest_payload update)))
