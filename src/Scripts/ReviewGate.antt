-- ===== src/Scripts/ReviewGate.antt =====
-- scripts/agent_review_gate.py: whether the review records of a pull request pass the gate. The
-- messages of a verdict and their order are not kept, nor is what only makes a warning or a note.
pub mod Records
pub mod Submitted
pub mod Reviews
pub mod Weighed
pub mod Latest
pub mod Rounds
pub mod Threads
pub mod Concluded
pub mod Passed
use cubrid_mcp_server.Common.{
  ℕ, ◌+◌, Bool, true, false, not, ◌&&◌, ◌||◌, ltb, leb, ◌==◌, if◌then◌else◌, Option, none, some,
  List, [], ◌∷◌, ◌++◌, any, length, map,
}
use cubrid_mcp_server.Common.Text.{Text, codes, text_eq, is_in}
use cubrid_mcp_server.Common.Unicode.{Unicode}
use cubrid_mcp_server.Common.Result.{Result, ok, err, raise_if, ◌>>=◌, ◌>>◌}
use cubrid_mcp_server.Config.{is_blank}
use cubrid_mcp_server.Config.Registry.{Named, lookup}
use cubrid_mcp_server.Server.Identifiers.{keep}
use cubrid_mcp_server.Scripts.CiScope.{matches}
use cubrid_mcp_server.Scripts.Changelog.Pass.{has_prefix}
use cubrid_mcp_server.Scripts.ReviewGate.Records.{
  Account, Commit, ChangedFile, Comment, FirstComment, Thread, Pull, PullData, Searches, GateError,
  lacks, no_author, incomplete_commits, incomplete_files, no_first_comment, no_comment_id, no_body,
  no_resolution, require, login_of, identity,
}
use cubrid_mcp_server.Scripts.ReviewGate.Reviews.{
  maintainers, approved_state, requests_changes, neutral_merge, committers_of, same_id, Tally,
  no_tally, weigh,
}
use cubrid_mcp_server.Scripts.ReviewGate.Submitted.{submitted, with_user, by_time}

unfoldable pub protected_patterns : List Text
protected_patterns =
    codes "cubrid_mcp_server/safety.py"
    ∷ codes "cubrid_mcp_server/database.py"
    ∷ codes "cubrid_mcp_server/audit.py"
    ∷ codes "cubrid_mcp_server/server.py"
    ∷ codes "cubrid_mcp_server/config.py"
    ∷ codes "cubrid_mcp_server/__main__.py"
    ∷ codes "cubrid_mcp_server/context.py"
    ∷ codes ".github/workflows/*"
    ∷ codes "scripts/agent_review_gate.py"
    ∷ codes "tests/test_agent_review_gate.py"
    ∷ []

unfoldable pub release_files : List Text
release_files =
    codes "CHANGELOG.md"
    ∷ codes "RELEASE_CHANGELOG.md"
    ∷ codes ".release-please-manifest.json"
    ∷ codes ".mcpb/server.json"
    ∷ codes "cubrid_mcp_server/__init__.py"
    ∷ []

unfoldable pub copilot_thread_authors : List Text
copilot_thread_authors =
    codes "copilot-pull-request-reviewer"
    ∷ codes "copilot-pull-request-reviewer[bot]"
    ∷ codes "Copilot"
    ∷ []

unfoldable pub blocking_severities : List Text
blocking_severities = codes "critical" ∷ codes "high" ∷ []

unfoldable pub release_author : Text
release_author = codes "github-actions[bot]"

unfoldable pub dependabot : Text
dependabot = codes "dependabot[bot]"

pub data Exemption : Type 0 where
  release_candidate : Exemption
  dependency_update : Exemption

-- What makes an error of the verdict
pub data Block : Type 0 where
  stale_event : Block
  requested_changes : Text → Block
  unresolved_finding : Block
  self_resolved : Block
  protected_unapproved : Block
  no_review : Block

pub record GateVerdict : Type 0 where
  pub passed : Bool
  pub exempt : Option Exemption
  pub errors : List Block

abbrev pub is_nil {ℓ} : {A : Type ℓ} → List A → Bool
is_nil [] = true
is_nil (x ∷ xs) = false

-- `_paths`
abbrev pub with_previous : Text → List Text → List Text
with_previous [] paths = paths
with_previous (c ∷ s) paths = (c ∷ s) ∷ paths

unfoldable pub paths_of : List ChangedFile → Result GateError (List Text)
paths_of [] = ok []
paths_of (f ∷ fs) = require lacks f.filename >>= λ name.
    paths_of fs >>= λ paths. ok (name ∷ with_previous f.previous_filename paths)

unfoldable pub protected_paths : List Text → List Text
protected_paths paths = keep (λ path. matches path protected_patterns) paths

-- `_dependabot_made`
unfoldable pub dependabot_made : Commit → Bool
dependabot_made c =
    text_eq (login_of c.author) dependabot
    && text_eq (login_of c.committer) (codes "web-flow")
    && c.verified

-- `paths <= RELEASE_FILES`
unfoldable pub only_release_files : List Text → Bool
only_release_files paths = not (any (λ path. not (is_in path release_files)) paths)

unfoldable pub release_exemption : List Text → Option Exemption
release_exemption paths =
    if only_release_files paths && is_nil (protected_paths paths)
    then some release_candidate
    else none

unfoldable pub dependency_exemption : PullData → Text → Option Exemption
dependency_exemption pull branch =
    if text_eq (login_of pull.pr.user) dependabot
      && has_prefix (codes "dependabot/") branch
      && text_eq pull.pr.head_repo pull.repo
      && not (any (λ c. not (dependabot_made c || neutral_merge pull c)) pull.commits)
    then some dependency_update
    else none

abbrev pub or_exempt : Option Exemption → Option Exemption → Option Exemption
or_exempt none e = e
or_exempt (some e) e' = some e

-- `_exemption`
unfoldable pub exemption : PullData → Result GateError (Option Exemption)
exemption pull = require lacks pull.pr.head_ref >>= λ branch.
    if text_eq (login_of pull.pr.user) release_author
      && has_prefix (codes "release-please--") branch
      && text_eq pull.pr.head_repo pull.repo
    then (paths_of pull.files >>= λ paths.
        ok (or_exempt (release_exemption paths) (dependency_exemption pull branch)))
    else ok (dependency_exemption pull branch)

-- `severities.get(root, "")`
unfoldable pub severity_of : ℕ → List (ℕ × Text) → Text
severity_of root [] = []
severity_of root (x ∷ xs) = let rest = severity_of root xs in if root == x.0 then x.1 else rest

-- `replies.get(root, [])`
unfoldable pub replies_to : ℕ → List Comment → List Text
replies_to root [] = []
replies_to root (c ∷ cs) =
    let rest = replies_to root cs in if same_id root c.in_reply_to then c.body ∷ rest else rest

-- Threads that nobody else opened can block.
unfoldable pub is_opener : Text → Bool
is_opener login = is_in login copilot_thread_authors || is_in login maintainers

module _ (search : Searches) (author : Text) (comments : List Comment)
    (severities : List (ℕ × Text)) where
  unfoldable pub is_serious : ℕ → Text → Bool
  is_serious root body =
      is_in (severity_of root severities) blocking_severities
      || any search.security (body ∷ replies_to root comments)

  unfoldable pub resolved_block : Thread → Result GateError (List Block)
  resolved_block thread = identity thread.resolved_by >>= λ resolver.
      ok (if text_eq resolver author then self_resolved ∷ [] else [])

  unfoldable pub judged : Thread → Bool → Bool → Result GateError (List Block)
  judged thread false serious = ok (if serious then unresolved_finding ∷ [] else [])
  judged thread true false = ok []
  judged thread true true = resolved_block thread

  unfoldable pub thread_blocks : Thread → Result GateError (List Block)
  thread_blocks thread = require no_first_comment thread.first >>= λ first.
      require no_comment_id first.database_id >>= λ root. require no_body first.body >>= λ body.
      require no_resolution thread.is_resolved >>= λ resolved. identity first.author >>= λ opener.
      if is_opener opener then judged thread resolved (is_serious root body) else ok []

  unfoldable pub all_blocks : List Thread → Result GateError (List Block)
  all_blocks [] = ok []
  all_blocks (t ∷ ts) = thread_blocks t >>= λ blocks. all_blocks ts >>= λ rest. ok (blocks ++ rest)

-- Whose latest decision asks for changes
unfoldable pub decision_blocks : Named Text → List Block
decision_blocks [] = []
decision_blocks (d ∷ ds) =
    let rest = decision_blocks ds in
    if text_eq d.1 requests_changes then requested_changes d.0 ∷ rest else rest

abbrev pub is_text : Text → Option Text → Bool
is_text s none = false
is_text s (some t) = text_eq t s

unfoldable pub approvers : Tally → List Text
approvers tally =
    keep (λ login. is_text approved_state (lookup login tally.decisions)) tally.approved

-- `satisfied`, within the budget of two rounds
unfoldable pub within_budget : Tally → Bool
within_budget tally = leb tally.rounds 2 && not (is_nil tally.ai_current)

unfoldable pub satisfied : List Text → Tally → Bool
satisfied guarded tally =
    not (is_nil (approvers tally))
    || (is_nil guarded && (not (is_nil tally.commented) || within_budget tally))

unfoldable pub review_blocks : List Text → Bool → List Block
review_blocks guarded true = []
review_blocks [] false = no_review ∷ []
review_blocks (p ∷ ps) false = protected_unapproved ∷ []

unfoldable pub conclude : List Text → Tally → List Block → GateVerdict
conclude guarded tally threads =
    let ok_reviews = satisfied guarded tally in
    let errors = decision_blocks tally.decisions ++ (threads ++ review_blocks guarded ok_reviews) in
    record { passed = ok_reviews && is_nil errors; exempt = none; errors = errors }

-- A listing that is incomplete
unfoldable pub is_cut : ℕ → ℕ → ℕ → Bool
is_cut listed total limit = ltb listed total || leb limit listed

module _ (u : Unicode) (search : Searches) (pull : PullData) where
  unfoldable pub tally_of : Text → Text → List Text → Result GateError Tally
  tally_of head author committers = submitted pull.reviews >>= λ reviews.
      ok (weigh u search pull head author committers (by_time reviews) no_tally)

  unfoldable pub reviewed : Text → Text → Result GateError GateVerdict
  reviewed head author = paths_of pull.files >>= λ paths.
      committers_of pull pull.commits >>= λ committers. tally_of head author committers >>= λ tally.
      all_blocks search author pull.comments tally.severities pull.threads >>= λ threads.
      ok (conclude (protected_paths paths) tally threads)

  unfoldable pub unless_exempt :
      Option Exemption → Result GateError GateVerdict → Result GateError GateVerdict
  unless_exempt none rest = rest
  unless_exempt (some e) rest = ok (record { passed = true; exempt = some e; errors = [] })

  unfoldable pub complete : Result GateError (Unit {0})
  complete = require lacks pull.pr.commits >>= λ commits.
      raise_if (is_cut (length pull.commits) commits 250) incomplete_commits
      >> require lacks pull.pr.changed_files
      >>= λ files. raise_if (is_cut (length pull.files) files 3000) incomplete_files

  -- `evaluate`
  unfoldable pub evaluate : Text → Result GateError GateVerdict
  evaluate event_head = require lacks pull.pr.head_sha >>= λ head.
      with_user pull.pr.user >>= λ user.
      raise_if (is_blank (login_of user)) no_author
      >> (if not (is_blank event_head) && not (text_eq event_head head)
          then ok (record { passed = false; exempt = none; errors = stale_event ∷ [] })
          else (complete >> exemption pull >>= λ exempt.
              unless_exempt exempt (reviewed head (login_of pull.pr.user))))

unfoldable pub has_passed : Result GateError GateVerdict → Bool
has_passed (ok verdict) = verdict.passed
has_passed (err e) = false

-- What `main` returns for what `evaluate` returns or raises
unfoldable pub gate_status : Bool → Result GateError GateVerdict → ℕ
gate_status bootstrap result = if bootstrap || has_passed result then 0 else 1
