-- ===== src/Scripts/ReviewGate/Reviews.antt =====
-- How scripts/agent_review_gate.py weighs the reviews of a pull request.
use cubrid_mcp_server.Common.{
  ℕ, zero, suc, ◌+◌, ◌-◌, Bool, true, false, not, ◌&&◌, ◌||◌, ltb, ◌==◌, if◌then◌else◌, Option,
  none, some, List, [], ◌∷◌, ◌++◌, take,
}
use cubrid_mcp_server.Common.Text.{Text, codes, text_eq, is_in}
use cubrid_mcp_server.Common.Unicode.{Unicode, strip}
use cubrid_mcp_server.Common.Result.{Result, ok, ◌>>=◌}
use cubrid_mcp_server.Config.{is_blank}
use cubrid_mcp_server.Config.Registry.{Named}
use cubrid_mcp_server.Scripts.PypiGuard.{put}
use cubrid_mcp_server.Scripts.ReviewGate.Records.{
  Account, Commit, Comment, Review, Change, PullData, Found, Searches, GateError, login_of, is_user,
  identity,
}
use cubrid_mcp_server.Scripts.ReviewGate.Submitted.{state_of}

unfoldable pub maintainers : List Text
maintainers = codes "yeongseon" ∷ codes "paikend" ∷ []

unfoldable pub copilot_logins : List Text
copilot_logins = codes "copilot-pull-request-reviewer[bot]" ∷ []

unfoldable pub approved_state : Text
approved_state = codes "APPROVED"

unfoldable pub commented_state : Text
commented_state = codes "COMMENTED"

unfoldable pub requests_changes : Text
requests_changes = codes "CHANGES_REQUESTED"

unfoldable pub decision_states : List Text
decision_states = approved_state ∷ requests_changes ∷ codes "DISMISSED" ∷ []

-- `==` on the files of two changes
unfoldable pub texts_eq : List Text → List Text → Bool
texts_eq [] [] = true
texts_eq (x ∷ xs) (y ∷ ys) = text_eq x y && texts_eq xs ys
texts_eq _ _ = false

unfoldable pub changes_eq : Change → Change → Bool
changes_eq [] [] = true
changes_eq (x ∷ xs) (y ∷ ys) = texts_eq x y && changes_eq xs ys
changes_eq _ _ = false

unfoldable pub both_same : Option Change → Option Change → Bool
both_same (some x) (some y) = changes_eq x y
both_same _ _ = false

-- `_same_change`
unfoldable pub same_change : PullData → Text → Text → Bool
same_change pull one other = both_same (pull.diffs one) (pull.diffs other)

-- `_neutral_merge`
unfoldable pub merges_base : PullData → Text → List Text → Bool
merges_base pull sha (p ∷ q ∷ parents) = same_change pull sha p
merges_base pull sha _ = false

unfoldable pub neutral_merge : PullData → Commit → Bool
neutral_merge pull commit = merges_base pull commit.sha commit.parents

-- Who wrote or committed something, but for the base branch
unfoldable pub committers_of : PullData → List Commit → Result GateError (List Text)
committers_of pull [] = ok []
committers_of pull (c ∷ cs) =
    let rest = committers_of pull cs in
    if neutral_merge pull c
    then rest
    else (identity c.author >>= λ author.
        identity c.committer >>= λ committer. rest >>= λ logins. ok (author ∷ committer ∷ logins))

-- `committers -= {"", "web-flow"}`
unfoldable pub is_committer : List Text → Text → Bool
is_committer logins login =
    is_in login logins && not (is_blank login) && not (text_eq login (codes "web-flow"))

abbrev pub same_id : ℕ → Option ℕ → Bool
same_id n none = false
same_id n (some m) = n == m

abbrev pub is_reply : Option ℕ → Bool
is_reply none = false
is_reply (some n) = true

-- `inline[review_id]`: the comments of a review that open a thread
unfoldable pub count_inline : ℕ → List Comment → ℕ
count_inline id [] = 0
count_inline id (c ∷ cs) =
    let rest = count_inline id cs in
    if same_id id c.review_id && not (is_reply c.in_reply_to) then 1 + rest else rest

unfoldable pub inline_of : List Comment → Option ℕ → ℕ
inline_of comments none = 0
inline_of comments (some id) = count_inline id comments

pub data Assessment : Type 0 where
  substantive : Assessment
  summary : Assessment
  notice : Assessment

abbrev pub drop : ℕ → Text → Text
drop zero s = s
drop (suc n) [] = []
drop (suc n) (c ∷ s) = drop n s

unfoldable pub states_assessment : Searches → Text → Option Found → Option Found → Bool
states_assessment search body (some verdict) (some findings) =
    ltb verdict.end findings.start
    && search.has_words
        (search.without_marks (take (findings.start - verdict.end) (drop verdict.end body)))
states_assessment search body _ _ = false

-- `copilot_assessment`
unfoldable pub copilot_assessment : Unicode → Searches → Text → ℕ → Assessment
copilot_assessment u search body inline =
    if is_blank (strip u body) && inline == 0
    then notice
    else if states_assessment search body (search.verdict body) (search.findings body)
    then substantive
    else if ltb 0 inline
    then substantive
    else if search.notice body
    then notice
    else summary

-- The variables of the second loop; the last severity of a comment is in front.
pub record Tally : Type 0 where
  pub severities : List (ℕ × Text)
  pub approved : List Text
  pub commented : List Text
  pub ai_current : List ℕ
  pub decisions : Named Text
  pub rounds : ℕ

unfoldable pub no_tally : Tally
no_tally = record {
  severities = [];
  approved = [];
  commented = [];
  ai_current = [];
  decisions = [];
  rounds = 0;
}

abbrev pub push_all : List (ℕ × Text) → List (ℕ × Text) → List (ℕ × Text)
push_all [] known = known
push_all (x ∷ xs) known = push_all xs (x ∷ known)

unfoldable pub is_maintainer : Account → Bool
is_maintainer user = is_user user && is_in (login_of user) maintainers

module _ (u : Unicode) (search : Searches) (pull : PullData) (head author : Text)
    (committers : List Text) where
  unfoldable pub is_at_head : Review → Bool
  is_at_head r = text_eq r.commit_id head || same_change pull r.commit_id head

  unfoldable pub assessed : Review → Assessment
  assessed r = copilot_assessment u search r.body (inline_of pull.comments r.id)

  unfoldable pub count_round : Review → Assessment → Tally → Tally
  count_round r notice tally = tally
  count_round r summary tally = record tally { rounds = 1 + tally.rounds }
  count_round r substantive tally =
      if is_at_head r
      then record tally {
        rounds = 1 + tally.rounds;
        ai_current = tally.ai_current ++ (1 + tally.rounds) ∷ [];
      }
      else record tally { rounds = 1 + tally.rounds }

  unfoldable pub copilot_review : Review → Tally → Tally
  copilot_review r tally =
      count_round r (assessed r)
        (record tally { severities = push_all (search.severities r.body) tally.severities })

  -- The decision of a maintainer, whoever it is
  unfoldable pub is_decision : Review → Bool
  is_decision r = is_maintainer r.user && is_in (state_of r.state) decision_states

  unfoldable pub with_decision : Review → Tally → Tally
  with_decision r tally =
      if is_decision r
      then record tally { decisions = put (login_of r.user) (state_of r.state) tally.decisions }
      else tally

  -- The tests behind the decision
  unfoldable pub qualifies : Review → Bool
  qualifies r =
      not (text_eq (login_of r.user) author)
      && not (is_committer committers (login_of r.user))
      && is_maintainer r.user

  unfoldable pub count_human : Review → Tally → Tally
  count_human r tally =
      if text_eq (state_of r.state) approved_state && is_at_head r
      then record tally { approved = tally.approved ++ login_of r.user ∷ [] }
      else if text_eq (state_of r.state) commented_state
          && is_at_head r
          && ltb 0 (inline_of pull.comments r.id)
      then record tally { commented = tally.commented ++ login_of r.user ∷ [] }
      else tally

  unfoldable pub human_review : Review → Tally → Tally
  human_review r tally =
      if qualifies r then count_human r (with_decision r tally) else with_decision r tally

  unfoldable pub review_step : Review → Tally → Tally
  review_step r tally =
      if is_in (login_of r.user) copilot_logins
      then copilot_review r tally
      else human_review r tally

  unfoldable pub weigh : List Review → Tally → Tally
  weigh [] tally = tally
  weigh (r ∷ rs) tally = weigh rs (review_step r tally)
