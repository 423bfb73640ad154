-- ===== src/Server/Catalog/Names.antt =====
-- The names that `all_table_names` returns, given back to the schema tools.
use cubrid_mcp_server.Common.{
  ◌≡◌, refl, sym, ap, ◌∙◌, true, false, Option-cases, inl, inr, some, List, [], ◌∷◌, All, Among,
  Among-All,
}
use cubrid_mcp_server.Common.Text.{Text, text_eq_iff}
use cubrid_mcp_server.Common.Unicode.{Unicode, strip}
use cubrid_mcp_server.Common.Result.{Result, ok, err, ◌>>=◌}
use cubrid_mcp_server.Config.{is_blank}
use cubrid_mcp_server.Server.Identifiers.{
  Table, NameError, empty_name, find_first, display, is_displayed, displayed_or, match_table,
  known_table, resolve_table,
}
use cubrid_mcp_server.Server.Identifiers.Matching.{find_first-some, find_first-none}

module _ (u : Unicode) (lower : Text → Text) (user : Text) where
  displayed_self :
      (table : Table)
      → strip u (display u lower table) ≡ display u lower table
      → is_displayed u lower (lower (strip u (display u lower table))) table ≡ true
  unfolding is_displayed
  displayed_self table trimmed =
      (text_eq_iff (lower (display u lower table)) (lower (strip u (display u lower table)))).1
        (ap lower (sym trimmed))

  match_table-display :
      (tables : List Table) (table : Table)
      → Among table tables
      → strip u (display u lower table) ≡ display u lower table
      → All (λ t. lower (display u lower t) ≡ lower (display u lower table) → t ≡ table) tables
      → match_table u lower user tables (display u lower table) ≡ ok (some table)
  unfolding match_table displayed_or
  match_table-display tables table m trimmed only =
      let needle : Text = lower (strip u (display u lower table)) in
      elim (Option-cases (find_first (is_displayed u lower needle) tables)) [
        | inl missing ↦ absurd (
            cc (
              displayed_self table trimmed,
              Among-All _ m (find_first-none (is_displayed u lower needle) tables missing),
            ))
        | inr (t, found) ↦
            let (m', held) = find_first-some (is_displayed u lower needle) tables t found in
            rw
              (
                found,
                Among-All _ m' only
                    (is_displayed-eq t (display u lower table) held ∙ ap lower trimmed),
              )
              refl
      ]
    where
      is_displayed-eq :
          (t : Table) (name : Text)
          → is_displayed u lower (lower (strip u name)) t ≡ true
          → lower (display u lower t) ≡ lower (strip u name)
      is_displayed-eq t name h = (text_eq_iff _ _).0 (unfold is_displayed in h)

  resolve_found :
      (tables : List Table) (table : Table) (table_name : Text)
      → is_blank (strip u table_name) ≡ false
      → match_table u lower user tables table_name ≡ ok (some table)
      → resolve_table u lower user tables table_name ≡ ok table
  unfolding resolve_table known_table
  resolve_found tables table table_name there found = step (strip u table_name) there
    where
      step :
          (s : Text)
          → is_blank s ≡ false
          → elim s as (λ s'. Result NameError Table) [
            | [] ↦ err empty_name
            | c ∷ rest ↦
                match_table u lower user tables table_name >>= known_table u lower table_name
          ]
            ≡ ok table
      step [] h = cc
      step (c ∷ s) h = rw found refl

  -- A name that `all_table_names` returns and that has no white space at its ends stands for its
  -- table: when no other table is displayed alike, without case, `_resolve_table` finds the table by
  -- its displayed name, whatever the names and the owners of the other tables.
  pub resolve_table-display :
      (tables : List Table) (table : Table)
      → Among table tables
      → is_blank (display u lower table) ≡ false
      → strip u (display u lower table) ≡ display u lower table
      → All (λ t. lower (display u lower t) ≡ lower (display u lower table) → t ≡ table) tables
      → resolve_table u lower user tables (display u lower table) ≡ ok table
  resolve_table-display tables table m there trimmed only =
      resolve_found tables table (display u lower table) (ap is_blank trimmed ∙ there)
        (match_table-display tables table m trimmed only)
