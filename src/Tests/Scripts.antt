-- ===== src/Tests/Scripts.antt =====
-- The scripts of the repository on concrete inputs.
use cubrid_mcp_server.Common.{
  ◌≡◌, ◌↔◌, refl, true, if◌then◌else◌, Option, some, List, [], ◌∷◌, ◌++◌, All, length, replicate,
}
use cubrid_mcp_server.Common.Text.{Text, codes, text_eq, is_in}
use cubrid_mcp_server.Common.Unicode.{ascii}
use cubrid_mcp_server.Common.Result.{ok}
use cubrid_mcp_server.Scripts.Lines.{
  is_break, lines_from, splitlines, words_from, split_words, IsLine,
}
use cubrid_mcp_server.Scripts.Patterns.{
  strip_prefix, strip_digits, digits_then, dot_then, is_version, blank_line, blank_rest, header_at,
  behind_feeds, at_lines,
}
use cubrid_mcp_server.Scripts.ReleaseDetect.{
  push, absent, Decision, new_decision, Git, Assign, is_release, version_of, is_hex, hex_then_end,
  is_sha, tag_ref, peeled_ref, read_parts, parsed_version, parse_version, has_dated_section,
  read_refs, commit_of, read_remote, remote_tag_commit, tag_state, version_at, previous_version,
  decided, detect_push, full_sha, needs_version, dispatch, detect, output_lines,
}
use cubrid_mcp_server.Scripts.ReleaseDetect.Decisions.{IsRelease, detect_push-publishes_iff}
use cubrid_mcp_server.Scripts.ReleaseDetect.Published.{MayPublish, detect-MayPublish}
use cubrid_mcp_server.Scripts.ReleaseDetect.Outputs.{output_lines-AreLines}

abbrev head : Text
head = replicate 40 b'a'

abbrev parent : Text
parent = replicate 40 b'b'

-- A file is a version or the CHANGELOG, at the head or at its parent.
abbrev file_at : Text → Text → Option Text
file_at sha path =
    if text_eq path (codes "CHANGELOG.md")
    then some (codes "# Changes\n## [1.2.0] - 2026-01-02 \n- new\n")
    else if text_eq sha head
    then some (codes "1.2.0")
    else some (codes "1.1.0")

abbrev repository : Git
repository = record {
  resolve_commit = λ rev. if text_eq rev (head ++ codes "^1") then parent else rev;
  read_at = file_at;
  ls_remote = λ remote ref. ok (codes "cafe refs/tags/v1.1.0\n");
  is_ancestor = λ a b. true;
}

abbrev walk : Text → Option (List Assign)
walk source = some (record { targets = codes "__version__" ∷ []; text = some source } ∷ [])

abbrev released : Decision
released = record (new_decision push head) {
  version = codes "1.2.0";
  tag_state = absent;
  build = true;
  publish = true;
  verify = true;
  reason = codes "release v1.2.0";
}

releases :
    detect_push ascii repository walk (codes "v.py") (codes "CHANGELOG.md") (codes "origin") head
    ≡ ok released
unfolding lines_from splitlines words_from split_words is_break strip_prefix strip_digits
    digits_then dot_then is_version blank_line blank_rest header_at behind_feeds at_lines version_of
    tag_ref peeled_ref read_parts parsed_version parse_version has_dated_section read_refs commit_of
    read_remote remote_tag_commit tag_state version_at previous_version decided detect_push text_eq
    is_in
releases = refl

detect_push-publishes_iff_example :
    ((true ≡ true)
      ↔ IsRelease ascii repository walk (codes "v.py") (codes "CHANGELOG.md") (codes "origin") head)
    × (is_release released ≡ true)
detect_push-publishes_iff_example =
    detect_push-publishes_iff ascii repository walk (codes "v.py") (codes "CHANGELOG.md")
      (codes "origin") head released releases

detects :
    detect ascii repository walk
      (codes "v.py")
      (codes "CHANGELOG.md")
      (codes "origin")
      (codes "origin/main")
      push
      head
      []
    ≡ ok released
unfolding detect dispatch full_sha is_sha hex_then_end is_hex needs_version lines_from splitlines
    words_from split_words is_break strip_prefix strip_digits digits_then dot_then is_version
    blank_line blank_rest header_at behind_feeds at_lines version_of tag_ref peeled_ref read_parts
    parsed_version parse_version has_dated_section read_refs commit_of read_remote remote_tag_commit
    tag_state version_at previous_version decided detect_push text_eq is_in
detects = refl

detect-MayPublish_example :
    MayPublish ascii repository walk
      (codes "v.py")
      (codes "CHANGELOG.md")
      (codes "origin")
      (codes "origin/main")
      push
      []
      released
detect-MayPublish_example =
    detect-MayPublish ascii repository walk (codes "v.py") (codes "CHANGELOG.md") (codes "origin")
      (codes "origin/main") push head [] released detects refl

output_lines-AreLines_example :
    All IsLine (output_lines (record released { reason = codes "a\npublish=true" }))
    × (length (output_lines (record released { reason = codes "a\npublish=true" })) ≡ 10)
output_lines-AreLines_example =
    output_lines-AreLines (record released { reason = codes "a\npublish=true" })
