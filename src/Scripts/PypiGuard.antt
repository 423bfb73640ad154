-- ===== src/Scripts/PypiGuard.antt =====
-- scripts/pypi_duplicate_guard.py: whether the files of a release may be uploaded. What the
-- directory holds, what PyPI answers and `json.loads` are parameters; so are `str.lower` and
-- Python's `str` on a JSON value.
pub mod Answers
pub mod Files
pub mod DistinctFiles
pub mod Verdicts
use cubrid_mcp_server.Common.{
  ℕ, zero, suc, ◌+◌, Bool, true, false, not, ◌&&◌, ◌||◌, ◌==◌, ltb, if◌then◌else◌, Option, none,
  some, List, [], ◌∷◌, ◌++◌, map, length, any,
}
use cubrid_mcp_server.Common.Text.{Text, codes, text_eq, is_in}
use cubrid_mcp_server.Common.Unicode.{alpha_ascii, digit_ascii}
use cubrid_mcp_server.Common.Result.{Result, ok, err, ◌>>=◌, ◌>>◌, raise_if}
use cubrid_mcp_server.Value.{decimal}
use cubrid_mcp_server.Config.Registry.{Named, names, lookup}
use cubrid_mcp_server.Server.Fence.{starts_with}
use cubrid_mcp_server.Server.Identifiers.{keep}
use cubrid_mcp_server.Scripts.Patterns.{at_text_end}
use cubrid_mcp_server.Scripts.ReleaseDetect.{hex_then_end}
use cubrid_mcp_server.Scripts.PypiGuard.Answers.{
  Json, text_json, list_json, object_json, Jsons, nil_jsons, cons_jsons, Members, member, get,
}

pub data GuardError : Type 0 where
  not_directory no_distribution_files unexpected_payload : GuardError
  unexpected_entry : Text → GuardError
  invalid_request : Text → Text → GuardError
  http_status : ℕ → GuardError
  all_attempts_failed : Text → GuardError
  other_release no_filename_or_digest : GuardError
  malformed_digest listed_twice : Text → GuardError

-- `re.sub(r"[-_.]+", "-", name)`: a run of separators is one dash.
abbrev pub is_separator : ℕ → Bool
is_separator c = c == b'-' || c == b'_' || c == b'.'

unfoldable pub dashed : Bool → Text → Text
dashed inside [] = []
dashed inside (c ∷ s) =
    let skipped = dashed true s in
    let kept = c ∷ dashed false s in
    if is_separator c then (if inside then skipped else b'-' ∷ skipped) else kept

abbrev pub is_alnum : ℕ → Bool
is_alnum c = alpha_ascii c || digit_ascii c

-- `_PROJECT`, behind its first character; whether the last one may end a name
unfoldable pub project_rest : Bool → Text → Bool
project_rest may_end [] = may_end
project_rest may_end (c ∷ s) =
    let longer = project_rest (is_alnum c) s in
    (at_text_end (c ∷ s) && may_end) || ((is_alnum c || is_separator c) && longer)

unfoldable pub is_project : Text → Bool
is_project [] = false
is_project (c ∷ s) = is_alnum c && project_rest true s

-- `_VERSION`, behind its first character
unfoldable pub version_rest : Text → Bool
version_rest [] = true
version_rest (c ∷ s) =
    let longer = version_rest s in
    at_text_end (c ∷ s)
    || ((is_alnum c || (c == b'.' || (c == b'+' || (c == b'!' || c == b'-')))) && longer)

unfoldable pub is_release_version : Text → Bool
is_release_version [] = false
is_release_version (c ∷ s) = digit_ascii c && version_rest s

unfoldable pub ends_with : Text → Text → Bool
ends_with suffix [] = text_eq suffix []
ends_with suffix (c ∷ s) = text_eq suffix (c ∷ s) || ends_with suffix s

-- `files[name] = value`
abbrev pub replaced : Text → Text → Named Text → Named Text
replaced name value [] = []
replaced name value (x ∷ xs) =
    let rest = replaced name value xs in if text_eq name x.0 then (x.0, value) ∷ xs else x ∷ rest

unfoldable pub put : Text → Text → Named Text → Named Text
put name value files =
    if is_in name (names files) then replaced name value files else files ++ (name, value) ∷ []

-- An entry of the directory, in the order of `sorted`
pub record DirectoryEntry : Type 0 where
  pub name : Text
  pub is_file : Bool
  pub sha256 : Text

-- One answer of PyPI: a body, an HTTP error, or no answer.
pub data Response : Type 0 where
  served : Text → Response
  status : ℕ → Response
  unreachable : Text → Response

-- What the guard leaves behind: its exit code, the files that it removed, and the output `upload`.
pub record Verdict : Type 0 where
  pub exit_code : ℕ
  pub removed : List Text
  pub upload : Option Bool

module _ (lower : Text → Text) (text_of : Json → Text) where
  unfoldable pub normalize : Text → Text
  normalize name = lower (dashed false name)

  -- `normalize(project).replace('-', '_')` and the version
  unfoldable pub underscored : Text → Text
  underscored [] = []
  underscored (c ∷ s) = (if c == b'-' then b'_' else c) ∷ underscored s

  unfoldable pub prefix_of : Text → Text → Text
  prefix_of project version = underscored (normalize project) ++ b'-' ∷ version

  unfoldable pub is_distribution : Text → DirectoryEntry → Bool
  is_distribution prefix entry =
      entry.is_file
      && ((starts_with (prefix ++ codes "-") entry.name && ends_with (codes ".whl") entry.name)
          || text_eq entry.name (prefix ++ codes ".tar.gz"))

  -- The `for` of `local_files`
  unfoldable pub read_entries :
      Text → List DirectoryEntry → Named Text → Result GuardError (Named Text)
  read_entries prefix [] files = ok files
  read_entries prefix (entry ∷ entries) files =
      raise_if (not (is_distribution prefix entry)) (unexpected_entry entry.name)
      >> read_entries prefix entries (put entry.name entry.sha256 files)

  abbrev pub no_entries : Named Text → Bool
  no_entries [] = true
  no_entries (x ∷ xs) = false

  -- `dist` is what the directory holds, if it is one.
  unfoldable pub local_files :
      Option (List DirectoryEntry) → Text → Text → Result GuardError (Named Text)
  local_files none project version = err not_directory
  local_files (some entries) project version = do
    files ← read_entries (prefix_of project version) entries []
    raise_if (no_entries files) no_distribution_files
    ok files

  module _ (fetch : ℕ → Response) (loads : Text → Option Json) where
    -- The attempts that are left, the number of the next and the last error; no body is a 404.
    unfoldable pub get_body : ℕ → ℕ → Text → Result GuardError (Option Text)
    get_body zero attempt error = err (all_attempts_failed error)
    get_body (suc left) attempt error = elim (fetch attempt) [
      | served body ↦ ok (some body)
      | status code ↦
          if code == 404
          then ok none
          else if ltb code 500
          then err (http_status code)
          else get_body left (attempt + 1) (codes "HTTP " ++ decimal code)
      | unreachable message ↦ get_body left (attempt + 1) message
    ]

    -- `data["info"]` and `data["urls"]`, an object and a list
    unfoldable pub payload : Option Json → Result GuardError (Members × Jsons)
    payload (some (object_json members)) = elim (get (codes "info") members) [
      | some (object_json info) ↦ elim (get (codes "urls") members) [
        | some (list_json urls) ↦ ok (info, urls)
        | _ ↦ err unexpected_payload
      ]
      | _ ↦ err unexpected_payload
    ]
    payload _ = err unexpected_payload

    -- `str(info.get("name", ""))` is the project, and `info.get("version")` the version.
    unfoldable pub name_text : Option Json → Text
    name_text none = []
    name_text (some value) = text_of value

    unfoldable pub is_version_text : Text → Option Json → Bool
    is_version_text version (some (text_json text)) = text_eq text version
    is_version_text version _ = false

    unfoldable pub describes : Text → Text → Members → Bool
    describes project version info =
        text_eq (normalize (name_text (get (codes "name") info))) (normalize project)
        && is_version_text version (get (codes "version") info)

    -- The filename and the digest of an entry of `urls`
    unfoldable pub digest_of : Option Json → Option Text
    digest_of (some (object_json digests)) = elim (get (codes "sha256") digests) [
      | some (text_json sha256) ↦ some sha256
      | _ ↦ none
    ]
    digest_of _ = none

    unfoldable pub file_of : Json → Option (Text × Text)
    file_of (object_json entry) = elim (get (codes "filename") entry) [
      | some (text_json filename) ↦ elim (digest_of (get (codes "digests") entry)) [
        | some sha256 ↦ some (filename, sha256)
        | none ↦ none
      ]
      | _ ↦ none
    ]
    file_of _ = none

    -- The body of the `for` of `published_files`
    unfoldable pub add_file : Named Text → Option (Text × Text) → Result GuardError (Named Text)
    add_file files none = err no_filename_or_digest
    add_file files (some (filename, sha256)) = do
      raise_if (not (hex_then_end 64 sha256)) (malformed_digest filename)
      raise_if (is_in filename (names files)) (listed_twice filename)
      ok (files ++ (filename, sha256) ∷ [])

    unfoldable pub add_files : Jsons → Named Text → Result GuardError (Named Text)
    add_files nil_jsons files = ok files
    add_files (cons_jsons entry entries) files =
        add_file files (file_of entry) >>= λ more. add_files entries more

    unfoldable pub read_answer : Text → Text → Option Text → Result GuardError (Named Text)
    read_answer project version none = ok []
    read_answer project version (some body) = do
      parts ← payload (loads body)
      raise_if (not (describes project version parts.0)) other_release
      add_files parts.1 []

    unfoldable pub published_files : Text → Text → Result GuardError (Named Text)
    published_files project version = get_body 3 1 [] >>= read_answer project version

    -- Whether a local file is on PyPI with the same digest, or with another
    unfoldable pub same_digest : Text → Option Text → Bool
    same_digest sha256 none = false
    same_digest sha256 (some published) = text_eq published sha256

    unfoldable pub other_digest : Text → Option Text → Bool
    other_digest sha256 none = false
    other_digest sha256 (some published) = not (text_eq published sha256)

    unfoldable pub identical : Named Text → Named Text → Named Text
    identical local published = keep (λ x. same_digest x.1 (lookup x.0 published)) local

    unfoldable pub is_mismatched : Named Text → Named Text → Bool
    is_mismatched local published = any (λ x. other_digest x.1 (lookup x.0 published)) local

    unfoldable pub is_unverified : Named Text → Named Text → Bool
    is_unverified local published = any (λ x. not (is_in x.0 (names local))) published

    abbrev pub refused : Verdict
    refused = record { exit_code = 1; removed = []; upload = none }

    unfoldable pub verdict : Named Text → Named Text → Verdict
    verdict local published =
        if is_mismatched local published || is_unverified local published then refused else record {
          exit_code = 0;
          removed = names (identical local published);
          upload = some (ltb (length (identical local published)) (length local));
        }

    unfoldable pub found_files :
        Option (List DirectoryEntry) → Text → Text → Result GuardError (Named Text × Named Text)
    found_files dist project version = do
      raise_if (not (is_project project) || not (is_release_version version))
          (invalid_request project version)
      local ← local_files dist project version
      published ← published_files project version
      ok (local, published)

    abbrev pub verdict_of : Result GuardError (Named Text × Named Text) → Verdict
    verdict_of (err e) = refused
    verdict_of (ok (local, published)) = verdict local published

    -- `main`
    unfoldable pub guard : Option (List DirectoryEntry) → Text → Text → Verdict
    guard dist project version = verdict_of (found_files dist project version)
