-- ===== src/Tests/Guard.antt =====
-- scripts/ci_scope.py and scripts/pypi_duplicate_guard.py on concrete inputs.
use cubrid_mcp_server.Common.{
  ℕ, zero, suc, ◌≡◌, ◌↔◌, refl, true, false, Option, some, List, [], ◌∷◌, All, replicate,
}
use cubrid_mcp_server.Common.Text.{Text, codes, text_eq, is_in}
use cubrid_mcp_server.Common.Unicode.{ascii}
use cubrid_mcp_server.Common.Result.{ok}
use cubrid_mcp_server.Config.Registry.{Named, names}
use cubrid_mcp_server.Server.Fence.{starts_with}
use cubrid_mcp_server.Scripts.CiScope.{pull_request, no_files, stripped, docs_tier, classify}
use cubrid_mcp_server.Scripts.CiScope.Tiers.{is_docs, classify-docs_iff}
use cubrid_mcp_server.Scripts.ReleaseDetect.{is_hex, hex_then_end}
use cubrid_mcp_server.Scripts.PypiGuard.Answers.{
  Json, text_json, list_json, object_json, nil_jsons, cons_jsons, no_members, member, get,
}
use cubrid_mcp_server.Scripts.PypiGuard.{
  DirectoryEntry, Response, served, status, unreachable, dashed, project_rest, is_project,
  version_rest, is_release_version, ends_with, put, normalize, underscored, prefix_of,
  is_distribution, read_entries, local_files, get_body, payload, name_text, is_version_text,
  describes, digest_of, file_of, add_file, add_files, read_answer, published_files, guard,
}
use cubrid_mcp_server.Scripts.PypiGuard.Verdicts.{IsVerdict, guard-IsVerdict}

abbrev changed : List Text
changed = codes "docs/guide/a.md" ∷ codes "  " ∷ codes "README.md" ∷ []

classify-docs_iff_example : ((classify ascii (codes "pull_request") changed).tier ≡ docs_tier) ↔ (
    (codes "pull_request" ≡ pull_request)
    × (no_files (stripped ascii changed) ≡ false)
    × All (λ path. is_docs path ≡ true) (stripped ascii changed))
classify-docs_iff_example = classify-docs_iff ascii (codes "pull_request") changed

abbrev same_case : Text → Text
same_case s = s

abbrev shown : Json → Text
shown (text_json t) = t
shown _ = []

abbrev digest : Text
digest = replicate 64 b'a'

abbrev wheel : Text
wheel = codes "my_pkg-1.0-py3-none-any.whl"

abbrev sdist : Text
sdist = codes "my_pkg-1.0.tar.gz"

abbrev built : List DirectoryEntry
built =
    record { name = wheel; is_file = true; sha256 = digest }
    ∷ record { name = sdist; is_file = true; sha256 = replicate 64 b'b' }
    ∷ []

-- The first answer is an error of the server, the second one lists the wheel.
abbrev answers : ℕ → Response
answers zero = unreachable []
answers (suc zero) = status 503
answers (suc (suc n)) = served (codes "release")

abbrev parse_json : Text → Option Json
parse_json body = some (
    object_json (
      member (codes "info")
        (object_json (
          member (codes "name") (text_json (codes "my.pkg"))
            (member (codes "version") (text_json (codes "1.0")) no_members)))
        (member (codes "urls")
          (list_json (
            cons_jsons
              (object_json (
                member (codes "filename") (text_json wheel) (
                  member (codes "digests")
                    (object_json (member (codes "sha256") (text_json digest) no_members))
                    no_members)))
              nil_jsons))
          no_members)))

abbrev local : Named Text
local = (wheel, digest) ∷ (sdist, replicate 64 b'b') ∷ []

reads_local : local_files same_case shown (some built) (codes "my-pkg") (codes "1.0") ≡ ok local
unfolding local_files read_entries is_distribution prefix_of normalize underscored dashed put
    ends_with starts_with text_eq is_in names
reads_local = refl

reads_published :
    published_files same_case shown answers parse_json (codes "my-pkg") (codes "1.0")
    ≡ ok ((wheel, digest) ∷ [])
unfolding published_files get_body read_answer payload describes name_text is_version_text normalize
    dashed add_files add_file file_of digest_of get hex_then_end is_hex text_eq is_in names
reads_published = refl

guard-IsVerdict_example :
    IsVerdict same_case shown answers parse_json local
      ((wheel, digest) ∷ [])
      (guard same_case shown answers parse_json (some built) (codes "my-pkg") (codes "1.0"))
unfolding is_project project_rest is_release_version version_rest
guard-IsVerdict_example =
    guard-IsVerdict same_case shown answers parse_json (some built) (codes "my-pkg") (codes "1.0")
      local ((wheel, digest) ∷ []) reads_local reads_published refl
