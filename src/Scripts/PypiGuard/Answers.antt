-- ===== src/Scripts/PypiGuard/Answers.antt =====
-- JSON values, as scripts/pypi_duplicate_guard.py takes them apart. `json.loads` makes them; an object
-- lists a key once.
use cubrid_mcp_server.Common.{Bool, if◌then◌else◌, Option, none, some}
use cubrid_mcp_server.Common.Text.{Text, text_eq}

-- A number is known by its text.
mutual
  pub data Json : Type 0 where
    null_json : Json
    bool_json : Bool → Json
    number_json : Text → Json
    text_json : Text → Json
    list_json : Jsons → Json
    object_json : Members → Json

  pub data Jsons : Type 0 where
    nil_jsons : Jsons
    cons_jsons : Json → Jsons → Jsons

  pub data Members : Type 0 where
    no_members : Members
    member : Text → Json → Members → Members

-- `value.get(key)`
unfoldable pub get : Text → Members → Option Json
get key no_members = none
get key (member name value rest) =
    let later = get key rest in if text_eq key name then some value else later
