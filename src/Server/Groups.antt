-- ===== src/Server/Groups.antt =====
-- `d.setdefault(name, entry)` and `.append(item)` on it, as `_list_indexes` and
-- `list_class_hierarchy` of cubrid_mcp_server/server.py group their rows.
pub mod Entries
use cubrid_mcp_server.Common.{if◌then◌else◌, List, [], ◌∷◌, ◌++◌}
use cubrid_mcp_server.Common.Text.{Text, text_eq}
use cubrid_mcp_server.Config.Registry.{Named}

-- A row: the name it is grouped by, the head of its entry and its item.
pub record Grouped (H I : Type 0) : Type 0 where
  pub name : Text
  pub head : H
  pub item : I

module _ {H I : Type 0} where
  unfoldable pub add_item : Grouped H I → Named (H × List I) → Named (H × List I)
  add_item r [] = (r.name, (r.head, r.item ∷ [])) ∷ []
  add_item r ((name, (head, items)) ∷ entries) =
      let later = (name, (head, items)) ∷ add_item r entries in
      if text_eq r.name name then (name, (head, items ++ r.item ∷ [])) ∷ entries else later

  -- The `for` over the rows.
  unfoldable pub group : List (Grouped H I) → Named (H × List I) → Named (H × List I)
  group [] entries = entries
  group (r ∷ rows) entries = group rows (add_item r entries)
