-- ===== src/Scripts/ReviewGate/Passed.antt =====
-- What stands behind a pull request that scripts/agent_review_gate.py passes.
use cubrid_mcp_server.Common.{◌≡◌, ◌≤◌, ◌⊎◌, some, List, [], All}
use cubrid_mcp_server.Common.Text.{Text}
use cubrid_mcp_server.Common.Unicode.{Unicode}
use cubrid_mcp_server.Common.Result.{Result, ok}
use cubrid_mcp_server.Scripts.ReviewGate.Records.{Review, PullData, Searches, login_of}
use cubrid_mcp_server.Scripts.ReviewGate.Reviews.{
  approved_state, requests_changes, committers_of, Tally, no_tally, weigh,
}
use cubrid_mcp_server.Scripts.ReviewGate.Submitted.{submitted, by_time}
use cubrid_mcp_server.Scripts.ReviewGate.{paths_of, protected_paths}
use cubrid_mcp_server.Scripts.ReviewGate.Weighed.{CountsCopilot, From, IsApprover, IsCommenter}
use cubrid_mcp_server.Scripts.ReviewGate.Latest.{last_decision}
use cubrid_mcp_server.Scripts.ReviewGate.Rounds.{published_rounds}
use cubrid_mcp_server.Scripts.ReviewGate.Threads.{IsSettled, no_request}

abbrev pub LastIs :
    Unicode → Searches → PullData → Text → List Text → List Review → Text → Text → Type 0
LastIs u search pull head committers reviews login state =
    last_decision u search pull head (login_of pull.pr.user) committers login (by_time reviews)
    ≡ some state

module _ (u : Unicode) (search : Searches) (pull : PullData) where
  -- A review of a maintainer that approves, and that is the latest decision
  pub record IsApproved (head : Text) (committers : List Text) (reviews : List Review)
      : Type 0 where
    pub login : Text
    pub approves :
        IsApprover u search pull head (login_of pull.pr.user) committers pull.reviews login
    pub latest : LastIs u search pull head committers reviews login approved_state

  -- A thread that a maintainer opened, or a review of substance by Copilot within the budget
  abbrev pub IsAssessed : Text → List Text → List Review → Type 0
  IsAssessed head committers reviews =
      IsCommenter u search pull head (login_of pull.pr.user) committers pull.reviews
      ⊎ (From u search pull head (login_of pull.pr.user) committers pull.reviews
            (CountsCopilot u search pull head (login_of pull.pr.user) committers)
          × (published_rounds u search pull head (login_of pull.pr.user) committers
                (by_time reviews)
              ≤ 2))

  -- Enough reviews for the paths that change, no maintainer whose latest decision asks for changes,
  -- and no thread with a word on security that is open or was resolved by the author
  pub record IsReviewed : Type 0 where
    pub head : Text
    pub is_head : pull.pr.head_sha ≡ some head
    pub paths : List Text
    pub are_paths : paths_of pull.files ≡ ok paths
    pub committers : List Text
    pub are_committers : committers_of pull pull.commits ≡ ok committers
    pub reviews : List Review
    pub are_reviews : submitted pull.reviews ≡ ok reviews
    pub evidence :
        IsApproved head committers reviews
        ⊎ ((protected_paths paths ≡ []) × IsAssessed head committers reviews)
    pub no_request :
        (login : Text) → ¬ LastIs u search pull head committers reviews login requests_changes
    pub settled : All (IsSettled search (login_of pull.pr.user)) pull.threads

  abbrev final : Text → List Text → List Review → Tally
  final head committers reviews =
      weigh u search pull head (login_of pull.pr.user) committers (by_time reviews) no_tally
