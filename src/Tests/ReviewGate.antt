-- ===== src/Tests/ReviewGate.antt =====
-- scripts/agent_review_gate.py on concrete records.
use cubrid_mcp_server.Common.{◌≡◌, refl, true, false, none, some, List, [], ◌∷◌}
use cubrid_mcp_server.Common.Text.{Text, codes, text_eq, is_in, lstrip, rstrip}
use cubrid_mcp_server.Common.Unicode.{ascii, strip}
use cubrid_mcp_server.Common.Result.{ok}
use cubrid_mcp_server.Config.Registry.{names, lookup}
use cubrid_mcp_server.Safety.Statement.{text_ltb}
use cubrid_mcp_server.Scripts.CiScope.{any_suffix, fnmatch, matches}
use cubrid_mcp_server.Scripts.Patterns.{strip_prefix}
use cubrid_mcp_server.Scripts.PypiGuard.{put}
use cubrid_mcp_server.Scripts.ReviewGate.Records.{
  Account, account, Review, PullData, Searches, login_of, is_user, identity,
}
use cubrid_mcp_server.Scripts.ReviewGate.Reviews.{
  maintainers, copilot_logins, approved_state, commented_state, requests_changes, decision_states,
  texts_eq, changes_eq, both_same, same_change, merges_base, neutral_merge, committers_of,
  is_committer, count_inline, inline_of, states_assessment, copilot_assessment, no_tally,
  is_maintainer, is_at_head, assessed, count_round, copilot_review, is_decision, with_decision,
  qualifies, count_human, human_review, review_step, weigh,
}
use cubrid_mcp_server.Scripts.ReviewGate.Submitted.{is_submitted, submitted, is_before, by_time}
use cubrid_mcp_server.Scripts.ReviewGate.{
  protected_patterns, copilot_thread_authors, blocking_severities, release_author, dependabot,
  requested_changes, protected_unapproved, stale_event, GateVerdict, paths_of, protected_paths,
  dependabot_made, dependency_exemption, exemption, severity_of, replies_to, is_opener, is_serious,
  resolved_block, judged, thread_blocks, all_blocks, decision_blocks, approvers, within_budget,
  satisfied, review_blocks, conclude, is_cut, tally_of, reviewed, unless_exempt, complete, evaluate,
}

-- Nothing is found in a text, but for a word on security in one that is not empty.
abbrev search : Searches
search = record {
  verdict = λ body. none;
  findings = λ body. none;
  without_marks = λ s. s;
  has_words = λ s. false;
  notice = λ s. false;
  security = λ s. true;
  severities = λ s. [];
}

abbrev review : Text → Text → Text → Review
review state login time = record {
  id = some 7;
  state = some state;
  user = account login true;
  submitted_at = time;
  commit_id = codes "head";
  body = [];
}

abbrev pull : List Review → Account → PullData
pull reviews resolver = record {
  repo = codes "o/r";
  pr = record {
    head_sha = some (codes "head");
    head_ref = some (codes "topic");
    head_repo = codes "o/r";
    user = account (codes "alice") true;
    commits = some 1;
    changed_files = some 1;
  };
  reviews = reviews;
  comments = [];
  commits =
      record {
        sha = codes "head";
        parents = codes "base" ∷ [];
        author = account (codes "alice") true;
        committer = account (codes "web-flow") true;
        verified = false;
      }
      ∷ [];
  files =
      record { filename = some (codes "cubrid_mcp_server/safety.py"); previous_filename = [] } ∷ [];
  threads =
      record {
        first = some (record {
          database_id = some 3;
          body = some (codes "injection");
          author = account (codes "Copilot") true;
        });
        is_resolved = some true;
        resolved_by = resolver;
      }
      ∷ [];
  diffs = λ sha. none;
}

abbrev maintainer : Text
maintainer = codes "paikend"

abbrev requests_first : List Review
requests_first =
    review (codes "APPROVED") maintainer (codes "2026-02")
    ∷ review (codes "CHANGES_REQUESTED") maintainer (codes "2026-01")
    ∷ []

abbrev requests_last : List Review
requests_last =
    review (codes "APPROVED") maintainer (codes "2026-01")
    ∷ review (codes "CHANGES_REQUESTED") maintainer (codes "2026-02")
    ∷ []

abbrev accepted : GateVerdict
accepted = record { passed = true; exempt = none; errors = [] }

blocked :
    evaluate ascii search (pull requests_last (account maintainer true)) []
    ≡ ok (record {
      passed = false;
      exempt = none;
      errors = requested_changes maintainer ∷ protected_unapproved ∷ [];
    })
unfolding text_eq is_in lstrip rstrip strip names lookup any_suffix fnmatch matches strip_prefix put
    login_of is_user identity maintainers copilot_logins approved_state commented_state
    requests_changes decision_states texts_eq changes_eq both_same same_change merges_base
    neutral_merge committers_of is_committer count_inline inline_of states_assessment
    copilot_assessment is_submitted submitted is_before by_time no_tally is_maintainer is_at_head
    assessed count_round copilot_review is_decision with_decision qualifies count_human human_review
    review_step weigh protected_patterns copilot_thread_authors blocking_severities release_author
    dependabot paths_of protected_paths dependabot_made dependency_exemption exemption severity_of
    replies_to is_opener is_serious resolved_block judged thread_blocks all_blocks decision_blocks
    approvers within_budget satisfied review_blocks conclude is_cut tally_of reviewed unless_exempt
    complete evaluate text_ltb
blocked = refl

moved :
    evaluate ascii search (pull [] (account maintainer true)) (codes "old")
    ≡ ok (record { passed = false; exempt = none; errors = stale_event ∷ [] })
unfolding text_eq is_in lstrip rstrip strip names lookup any_suffix fnmatch matches strip_prefix put
    login_of is_user identity maintainers copilot_logins approved_state commented_state
    requests_changes decision_states texts_eq changes_eq both_same same_change merges_base
    neutral_merge committers_of is_committer count_inline inline_of states_assessment
    copilot_assessment is_submitted submitted is_before by_time no_tally is_maintainer is_at_head
    assessed count_round copilot_review is_decision with_decision qualifies count_human human_review
    review_step weigh protected_patterns copilot_thread_authors blocking_severities release_author
    dependabot paths_of protected_paths dependabot_made dependency_exemption exemption severity_of
    replies_to is_opener is_serious resolved_block judged thread_blocks all_blocks decision_blocks
    approvers within_budget satisfied review_blocks conclude is_cut tally_of reviewed unless_exempt
    complete evaluate text_ltb
moved = refl
