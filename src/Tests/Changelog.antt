-- ===== src/Tests/Changelog.antt =====
-- scripts/lint_changelog.py on concrete inputs.
use cubrid_mcp_server.Common.{ℕ, ◌≡◌, ◌↔◌, ◌-◌, false, refl, ltb, none, some, ◌++◌, arith}
use cubrid_mcp_server.Common.Text.{Text, codes, text_eq, is_in, split_on, add_first, lstrip, rstrip}
use cubrid_mcp_server.Common.Unicode.{ascii, digit_ascii, strip}
use cubrid_mcp_server.Common.Result.{err}
use cubrid_mcp_server.Server.Identifiers.{keep}
use cubrid_mcp_server.Scripts.Lines.{is_break, lines_from, splitlines}
use cubrid_mcp_server.Scripts.Patterns.{strip_prefix}
use cubrid_mcp_server.Scripts.Changelog.Sections.{
  allowed_sections, unreleased, misplaced_section, index, is_last, before_last, is_number, int_from,
  above_cutoff, numbers_applied, section_policy_applies, section_error, check_from, check_sections,
}
use cubrid_mcp_server.Scripts.Changelog.Pass.{
  bad_section, unclosed_fence, out_of_order, before_bracket, bracketed, header_name, title_behind,
  heading_title, names_of, headers_of, add_to_body, add_line, add_to_last, is_seen, subsection,
  fenced, entered, read_line, read_lines, releases_of, check_releases,
}
use cubrid_mcp_server.Scripts.Changelog.{
  Packaging, repeated, is_above, order_from, check_order, unique_versions, released_versions,
  count_unreleased, check_versions, check_headers, lint, exit_status,
}
use cubrid_mcp_server.Scripts.Changelog.Valid.{IsChangelog, lint-IsChangelog}

abbrev digit_value : ℕ → ℕ
digit_value c = c - 48

ltb_trans : (a b c : ℕ) → ltb a b ≡ false → ltb b c ≡ false → ltb a c ≡ false
ltb_trans a b c h k = ground arith

-- A version is read as the number that its digits make.
abbrev packaging : Packaging
packaging = record {
  Version = ℕ;
  parse = λ v. some (int_from digit_value 0 (keep digit_ascii v));
  is_greater = λ a b. ltb b a;
  greater_trans = ltb_trans;
}

abbrev changelog : Text
changelog =
    codes "# Changes\n\n## [Unreleased]\n### Added\n- new\n### Fixed\n```\n### Odd\n```\n"
    ++ codes "## [0.5.0] - 2026-01-02\n### CI\n- faster\n## [0.4.0]\n### Odd\n"

abbrev disordered : Text
disordered = codes "## [Unreleased]\n### Fixed\n- a\n### Added\n- b\n"

accepted : exit_status (lint ascii digit_value (some packaging) (some changelog)) ≡ 0
unfolding text_eq is_in split_on add_first lstrip rstrip strip is_break lines_from splitlines
    strip_prefix allowed_sections unreleased index is_last before_last is_number int_from
    above_cutoff numbers_applied section_policy_applies section_error check_from check_sections
    before_bracket bracketed header_name title_behind heading_title names_of headers_of add_to_body
    add_line add_to_last is_seen subsection fenced entered read_line read_lines releases_of
    check_releases repeated is_above order_from check_order unique_versions released_versions
    count_unreleased check_versions check_headers lint exit_status
accepted = refl

rejected :
    lint ascii digit_value (some packaging) (some disordered)
    ≡ err (bad_section unreleased (misplaced_section (codes "Added") (codes "Fixed")))
unfolding text_eq is_in split_on add_first lstrip rstrip strip is_break lines_from splitlines
    strip_prefix allowed_sections unreleased index is_last before_last is_number int_from
    above_cutoff numbers_applied section_policy_applies section_error check_from check_sections
    before_bracket bracketed header_name title_behind heading_title names_of headers_of add_to_body
    add_line add_to_last is_seen subsection fenced entered read_line read_lines releases_of
    check_releases repeated is_above order_from check_order unique_versions released_versions
    count_unreleased check_versions check_headers lint exit_status
rejected = refl

unclosed : lint ascii digit_value none (some (codes "## [Unreleased]\n```\n")) ≡ err unclosed_fence
unfolding text_eq is_in split_on add_first lstrip rstrip strip is_break lines_from splitlines
    strip_prefix allowed_sections unreleased index is_last before_last is_number int_from
    above_cutoff numbers_applied section_policy_applies section_error check_from check_sections
    before_bracket bracketed header_name title_behind heading_title names_of headers_of add_to_body
    add_line add_to_last is_seen subsection fenced entered read_line read_lines releases_of
    check_releases repeated is_above order_from check_order unique_versions released_versions
    count_unreleased check_versions check_headers lint exit_status
unclosed = refl

ascending :
    lint ascii digit_value
      (some packaging)
      (some (codes "## [Unreleased]\n## [0.1.0]\n## [0.2.0]\n"))
    ≡ err (out_of_order (codes "0.2.0") (codes "0.1.0"))
unfolding text_eq is_in split_on add_first lstrip rstrip strip is_break lines_from splitlines
    strip_prefix allowed_sections unreleased index is_last before_last is_number int_from
    above_cutoff numbers_applied section_policy_applies section_error check_from check_sections
    before_bracket bracketed header_name title_behind heading_title names_of headers_of add_to_body
    add_line add_to_last is_seen subsection fenced entered read_line read_lines releases_of
    check_releases repeated is_above order_from check_order unique_versions released_versions
    count_unreleased check_versions check_headers lint exit_status
ascending = refl

lint-IsChangelog_example :
    (exit_status (lint ascii digit_value (some packaging) (some changelog)) ≡ 0)
    ↔ IsChangelog ascii digit_value (some packaging) changelog
lint-IsChangelog_example = lint-IsChangelog ascii digit_value (some packaging) changelog
