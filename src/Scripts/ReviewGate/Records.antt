-- ===== src/Scripts/ReviewGate/Records.antt =====
-- The records of GitHub that scripts/agent_review_gate.py reads. What is left out of a record is none,
-- or the empty text where the code reads it as one.
use cubrid_mcp_server.Common.{if◌then◌else◌, ℕ, Bool, false, Option, none, some, List, []}
use cubrid_mcp_server.Common.Text.{Text}
use cubrid_mcp_server.Common.Result.{Result, ok, err}
use cubrid_mcp_server.Config.{is_blank}

-- An account: not in the record, null, or a login and whether its type is "User"
pub data Account : Type 0 where
  no_account : Account
  deleted : Account
  account : Text → Bool → Account

pub record Commit : Type 0 where
  pub sha : Text
  pub parents : List Text
  pub author : Account
  pub committer : Account
  pub verified : Bool

pub record ChangedFile : Type 0 where
  pub filename : Option Text
  pub previous_filename : Text

pub record Comment : Type 0 where
  pub review_id : Option ℕ
  pub in_reply_to : Option ℕ
  pub body : Text

pub record Review : Type 0 where
  pub id : Option ℕ
  pub state : Option Text
  pub user : Account
  pub submitted_at : Text
  pub commit_id : Text
  pub body : Text

-- The first comment of a thread; an identifier is positive.
pub record FirstComment : Type 0 where
  pub database_id : Option ℕ
  pub body : Option Text
  pub author : Account

pub record Thread : Type 0 where
  pub first : Option FirstComment
  pub is_resolved : Option Bool
  pub resolved_by : Account

pub record Pull : Type 0 where
  pub head_sha : Option Text
  pub head_ref : Option Text
  pub head_repo : Text
  pub user : Account
  pub commits : Option ℕ
  pub changed_files : Option ℕ

-- The files of a change with their patches
abbrev pub Change : Type 0
Change = List (List Text)

-- What `fetch` returns; `diffs` has the change at a commit, if it is there and not None.
pub record PullData : Type 0 where
  pub repo : Text
  pub pr : Pull
  pub reviews : List Review
  pub comments : List Comment
  pub commits : List Commit
  pub files : List ChangedFile
  pub threads : List Thread
  pub diffs : Text → Option Change

-- Where a compiled pattern is found
pub record Found : Type 0 where
  pub start : ℕ
  pub end : ℕ

-- The searches by `re` of the compiled patterns: COPILOT_VERDICT, COPILOT_FINDINGS, the words between
-- them once the marks are gone, COPILOT_NOTICE, SECURITY_WORDS, and the pairs of COPILOT_SEVERITY in
-- lower case.
pub record Searches : Type 0 where
  pub verdict : Text → Option Found
  pub findings : Text → Option Found
  pub without_marks : Text → Text
  pub has_words : Text → Bool
  pub notice : Text → Bool
  pub security : Text → Bool
  pub severities : Text → List (ℕ × Text)

pub data GateError : Type 0 where
  lacks : GateError
  no_author : GateError
  incomplete_commits : GateError
  incomplete_files : GateError
  no_reviewer : GateError
  no_submission : GateError
  no_login : GateError
  no_first_comment : GateError
  no_comment_id : GateError
  no_body : GateError
  no_resolution : GateError

-- `_require`, and the tests that raise on a field that is not there
abbrev pub require {ℓ} : {A : Type ℓ} → GateError → Option A → Result GateError A
require e none = err e
require e (some a) = ok a

-- `_login`
unfoldable pub login_of : Account → Text
login_of (account login is_user) = login
login_of _ = []

-- `user.get("type") == "User"`
unfoldable pub is_user : Account → Bool
is_user (account login user) = user
is_user _ = false

-- `_identity`
unfoldable pub identity : Account → Result GateError Text
identity no_account = err lacks
identity deleted = ok []
identity (account login user) = if is_blank login then err no_login else ok login
