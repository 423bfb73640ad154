-- ===== src/Scripts/ReleaseDetect.antt =====
-- scripts/release_detect.py: whether a commit is a release. `git` and `ast` are parameters: what
-- `git` answers, and the assignments in a source with the texts that stand right of them.
pub mod Decisions
pub mod Published
pub mod Outputs
use cubrid_mcp_server.Common.{
  ℕ, zero, suc, Bool, true, false, not, ◌&&◌, ◌||◌, ◌==◌, if◌then◌else◌, Option, none, some, List,
  [], ◌∷◌, ◌++◌, map, length,
}
use cubrid_mcp_server.Common.Text.{Text, codes, text_eq, is_in, join}
use cubrid_mcp_server.Common.Unicode.{Unicode, digit_ascii}
use cubrid_mcp_server.Common.Result.{Result, ok, err, ◌>>=◌, ◌>>◌, raise_if}
use cubrid_mcp_server.Config.{is_blank}
use cubrid_mcp_server.Scripts.Lines.{splitlines, split_words}
use cubrid_mcp_server.Scripts.Patterns.{is_version, header_at, at_lines, at_text_end}

pub data DetectMode : Type 0 where
  push resume verify_only dry_run : DetectMode

pub data TagState : Type 0 where
  unknown absent same different : TagState

pub data DetectError : Type 0 where
  bad_version : DetectMode → Text → DetectError
  bad_sha : Text → DetectError
  ls_remote_failed : Text → Text → DetectError
  no_tag : DetectMode → Text → DetectError
  not_local : DetectMode → Text → Text → DetectError
  not_on_main : DetectMode → Text → Text → DetectError
  other_version : DetectMode → Text → Text → DetectError
  no_section : DetectMode → Text → DetectError

pub record Decision : Type 0 where
  pub mode : DetectMode
  pub sha : Text
  pub version : Text
  pub tag_state : TagState
  pub reason : Text
  pub build : Bool
  pub publish : Bool
  pub verify : Bool
  pub warnings : List Text

-- `Decision(mode=mode, sha=sha)`
abbrev pub new_decision : DetectMode → Text → Decision
new_decision mode sha = record {
  mode = mode;
  sha = sha;
  version = [];
  tag_state = unknown;
  reason = [];
  build = false;
  publish = false;
  verify = false;
  warnings = [];
}

unfoldable pub tag_of : Decision → Text
tag_of decision = if is_blank decision.version then [] else b'v' ∷ decision.version

unfoldable pub is_release : Decision → Bool
is_release decision = decision.build || decision.publish || decision.verify

unfoldable pub flag : Bool → Text
flag true = codes "true"
flag false = codes "false"

unfoldable pub mode_text : DetectMode → Text
mode_text push = codes "push"
mode_text resume = codes "resume"
mode_text verify_only = codes "verify-only"
mode_text dry_run = codes "dry-run"

unfoldable pub tag_state_text : TagState → Text
tag_state_text unknown = codes "unknown"
tag_state_text absent = codes "absent"
tag_state_text same = codes "same"
tag_state_text different = codes "different"

unfoldable pub outputs : Decision → List (Text × Text)
outputs decision =
    (codes "release", flag (is_release decision))
    ∷ (codes "build", flag decision.build)
    ∷ (codes "publish", flag decision.publish)
    ∷ (codes "verify", flag decision.verify)
    ∷ (codes "mode", mode_text decision.mode)
    ∷ (codes "version", decision.version)
    ∷ (codes "tag", tag_of decision)
    ∷ (codes "sha", decision.sha)
    ∷ (codes "tag_state", tag_state_text decision.tag_state)
    ∷ (codes "reason", decision.reason)
    ∷ []

-- What `git` answers: the commit of a revision or nothing, the text of a file at a commit, the
-- output of `ls-remote` or what it wrote to stderr, and whether a commit is an ancestor.
pub record Git : Type 0 where
  pub resolve_commit : Text → Text
  pub read_at : Text → Text → Option Text
  pub ls_remote : Text → Text → Result Text Text
  pub is_ancestor : Text → Text → Bool

-- An assignment: the names on its left, and the text on its right if it is a constant string
pub record Assign : Type 0 where
  pub targets : List Text
  pub text : Option Text

unfoldable pub version_of : List Assign → Text
version_of [] = []
version_of (node ∷ nodes) =
    let later = version_of nodes in
    elim node.text [
      | none ↦ later
      | some text ↦ if is_in (codes "__version__") node.targets then text else later
    ]

-- `not SHA_RE.match(sha)` is the negation.
unfoldable pub is_hex : ℕ → Bool
is_hex c =
    digit_ascii c || (c == b'a' || c == b'b' || c == b'c' || c == b'd' || c == b'e' || c == b'f')

-- `n` hexadecimal digits and then the end
unfoldable pub hex_then_end : ℕ → Text → Bool
hex_then_end zero s = at_text_end s
hex_then_end (suc n) [] = false
hex_then_end (suc n) (c ∷ s) = is_hex c && hex_then_end n s

unfoldable pub is_sha : Text → Bool
is_sha = hex_then_end 40

-- `refs/tags/<tag>`, and behind it the mark of what an annotated tag points at
unfoldable pub tag_ref : Text → Text
tag_ref tag = codes "refs/tags/" ++ tag

unfoldable pub peeled_ref : Text → Text
peeled_ref ref = ref ++ codes "^{}"

-- `direct, peeled` after one line
unfoldable pub read_parts : Text → List Text → Text × Text → Text × Text
read_parts ref (commit ∷ name ∷ []) (direct, peeled) =
    if text_eq name ref
    then (commit, peeled)
    else if text_eq name (peeled_ref ref)
    then (direct, commit)
    else (direct, peeled)
read_parts ref _ found = found

module _ (u : Unicode) (git : Git) (ast_walk : Text → Option (List Assign)) where
  -- `parse_version`
  unfoldable pub parsed_version : Option (List Assign) → Text
  parsed_version none = []
  parsed_version (some nodes) = version_of nodes

  unfoldable pub parse_version : Option Text → Text
  parse_version none = []
  parse_version (some source) = parsed_version (ast_walk source)

  unfoldable pub has_dated_section : Option Text → Text → Bool
  has_dated_section none version = false
  has_dated_section (some changelog) version = at_lines (header_at u version) changelog

  -- The `for` of `remote_tag_commit`
  unfoldable pub read_refs : Text → List Text → Text × Text → Text × Text
  read_refs ref [] found = found
  read_refs ref (line ∷ lines) found =
      read_refs ref lines (read_parts ref (split_words u.is_space line) found)

  -- `peeled or direct`
  unfoldable pub commit_of : Text × Text → Text
  commit_of (direct, peeled) = if is_blank peeled then direct else peeled

  unfoldable pub read_remote : Text → Text → Result Text Text → Result DetectError Text
  read_remote remote ref (err message) = err (ls_remote_failed remote message)
  read_remote remote ref (ok stdout) = ok (commit_of (read_refs ref (splitlines stdout) ([], [])))

  unfoldable pub remote_tag_commit : Text → Text → Result DetectError Text
  remote_tag_commit remote tag =
      read_remote remote (tag_ref tag) (git.ls_remote remote (tag_ref tag))

  unfoldable pub tag_state : Text → Text → TagState
  tag_state tag_commit sha =
      if is_blank tag_commit then absent else if text_eq tag_commit sha then same else different

  -- The version at a commit
  unfoldable pub version_at : Text → Text → Text
  version_at version_file sha = parse_version (git.read_at sha version_file)

  -- `parse_version(read_at(parent, version_file)) if parent else ""`
  unfoldable pub previous_version : Text → Text → Text
  previous_version version_file parent =
      if is_blank parent then [] else version_at version_file parent

  module _ (version_file changelog remote : Text) where
    -- The end of `detect_push`, by the state of the tag
    unfoldable pub decided : Decision → TagState → Decision
    decided decision different =
        let reason =
          codes "tag v"
          ++ (decision.version
              ++ codes " already exists at another commit; tags are never moved") in
        record decision {
          tag_state = different;
          reason = reason;
          warnings = decision.warnings ++ reason ∷ [];
        }
    decided decision absent = record decision {
      tag_state = absent;
      build = true;
      publish = true;
      verify = true;
      reason = codes "release v" ++ decision.version;
    }
    decided decision state = record decision {
      tag_state = state;
      build = true;
      publish = true;
      verify = true;
      reason = codes "resume v" ++ (decision.version ++ codes " (tag already at this commit)");
    }

    unfoldable pub no_version_reason : Text
    no_version_reason = codes "no __version__ found in " ++ version_file

    unfoldable pub unchanged_reason : Text → Text
    unchanged_reason version =
        codes "__version__ unchanged (" ++ (version ++ codes ") compared with the first parent")

    unfoldable pub undated_reason : Text → Text
    undated_reason version =
        codes "__version__ changed to "
        ++ (version
            ++ (codes " but "
                ++ (changelog
                    ++ (codes " has no dated '## ["
                        ++ (version ++ codes "] - YYYY-MM-DD' section")))))

    abbrev pub malformed_reason : Text
    malformed_reason = codes "__version__ is not MAJOR.MINOR.PATCH"

    unfoldable pub detect_push : Text → Result DetectError Decision
    detect_push sha =
        let version = version_at version_file sha in
        let previous = previous_version version_file (git.resolve_commit (sha ++ codes "^1")) in
        let start = new_decision push sha in
        let named = record start { version = version } in
        if is_blank version
        then ok (record start { reason = no_version_reason })
        else if not (is_version version)
        then ok (record start {
          reason = malformed_reason;
          warnings = if text_eq version previous then [] else malformed_reason ∷ [];
        })
        else if text_eq version previous
        then ok (record named { reason = unchanged_reason version })
        else if not (has_dated_section (git.read_at sha changelog) version)
        then ok (record named {
          reason = undated_reason version;
          warnings = undated_reason version ∷ [];
        })
        else (remote_tag_commit remote (b'v' ∷ version) >>= λ commit.
            ok (decided named (tag_state commit sha)))

    -- The end of `detect_existing`
    unfoldable pub recovered : DetectMode → Text → Text → Decision
    recovered resume sha version = record (new_decision resume sha) {
      version = version;
      tag_state = same;
      build = true;
      publish = true;
      verify = true;
      reason = codes "resume v" ++ (version ++ codes " at the existing tag");
    }
    recovered mode sha version = record (new_decision mode sha) {
      version = version;
      tag_state = same;
      verify = true;
      reason = codes "re-run the cookbook verification of v" ++ (version ++ codes " only");
    }

    -- The tests of the version and the section that a recovery or a rehearsal must pass
    unfoldable pub consistent : DetectMode → Text → Text → Result DetectError (Unit {0})
    consistent mode sha version = do
      raise_if (not (text_eq (version_at version_file sha) version))
          (other_version mode (version_at version_file sha) version)
      raise_if (not (has_dated_section (git.read_at sha changelog) version))
          (no_section mode version)

    unfoldable pub detect_existing : Text → DetectMode → Text → Result DetectError Decision
    detect_existing main_ref mode version = do
      sha ← remote_tag_commit remote (b'v' ∷ version)
      raise_if (is_blank sha) (no_tag mode version)
      raise_if (is_blank (git.resolve_commit sha)) (not_local mode version sha)
      raise_if (not (git.is_ancestor sha main_ref)) (not_on_main mode version sha)
      consistent mode sha version
      ok (recovered mode sha version)

    unfoldable pub rehearsed : Text → Text → TagState → Decision
    rehearsed sha version state = record (new_decision dry_run sha) {
      version = version;
      tag_state = state;
      build = true;
      verify = true;
      reason =
          codes "dry run of v" ++ (version ++ codes ": nothing is tagged, released or uploaded");
    }

    unfoldable pub detect_dry_run : Text → Text → Result DetectError Decision
    detect_dry_run sha version = do
      consistent dry_run sha version
      commit ← remote_tag_commit remote (b'v' ∷ version)
      ok (rehearsed sha version (tag_state commit sha))

    -- `--sha` must be a full commit that is there.
    unfoldable pub full_sha : Text → Result DetectError Text
    full_sha sha = do
      raise_if (not (is_sha sha) || not (text_eq (git.resolve_commit sha) sha)) (bad_sha sha)
      ok (git.resolve_commit sha)

    unfoldable pub needs_version : DetectMode → Bool
    needs_version push = false
    needs_version _ = true

    unfoldable pub dispatch : Text → DetectMode → Text → Text → Result DetectError Decision
    dispatch main_ref push sha version = full_sha sha >>= detect_push
    dispatch main_ref dry_run sha version = full_sha sha >>= λ commit. detect_dry_run commit version
    dispatch main_ref mode sha version = detect_existing main_ref mode version

    unfoldable pub detect : Text → DetectMode → Text → Text → Result DetectError Decision
    detect main_ref mode sha version = do
      raise_if (needs_version mode && not (is_version version)) (bad_version mode version)
      dispatch main_ref mode sha version

-- The lines of `write_outputs`, and the text that they make
unfoldable pub output_line : Text × Text → Text
output_line (key, value) = key ++ (b'=' ∷ join (codes " ") (splitlines value))

unfoldable pub output_lines : Decision → List Text
output_lines decision = map output_line (outputs decision)

unfoldable pub output_text : Decision → Text
output_text decision = join (codes "\n") (output_lines decision) ++ codes "\n"
