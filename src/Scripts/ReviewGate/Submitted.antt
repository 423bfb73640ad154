-- ===== src/Scripts/ReviewGate/Submitted.antt =====
-- The reviews that scripts/agent_review_gate.py looks at, in their order.
use cubrid_mcp_server.Common.{
  ℕ, Bool, true, false, ◌&&◌, ◌||◌, ltb, if◌then◌else◌, Option, none, some, List, [], ◌∷◌,
}
use cubrid_mcp_server.Common.Text.{Text, codes, text_eq}
use cubrid_mcp_server.Common.Result.{Result, ok, err, raise_if, ◌>>=◌, ◌>>◌}
use cubrid_mcp_server.Config.{is_blank}
use cubrid_mcp_server.Safety.Statement.{text_ltb}
use cubrid_mcp_server.Scripts.ReviewGate.Records.{
  Account, no_account, deleted, Review, GateError, lacks, no_reviewer, no_submission, require,
  login_of,
}

abbrev pub state_of : Option Text → Text
state_of none = []
state_of (some state) = state

-- The first loop over the reviews
unfoldable pub is_submitted : Review → Account → Text → Result GateError Bool
is_submitted r deleted state = ok false
is_submitted r user state =
    raise_if (is_blank (login_of user)) no_reviewer
    >> (if text_eq state (codes "PENDING")
        then ok false
        else (raise_if (is_blank r.submitted_at) no_submission >> ok true))

abbrev pub with_user : Account → Result GateError Account
with_user no_account = err lacks
with_user user = ok user

unfoldable pub submitted : List Review → Result GateError (List Review)
submitted [] = ok []
submitted (r ∷ rs) = require lacks r.state >>= λ state. with_user r.user >>= λ user.
    is_submitted r user state >>= λ kept.
    submitted rs >>= λ rest. ok (if kept then r ∷ rest else rest)

-- `sorted` by the time of submission and the identifier
abbrev pub id_or_zero : Option ℕ → ℕ
id_or_zero none = 0
id_or_zero (some n) = n

unfoldable pub is_before : Review → Review → Bool
is_before r r' =
    text_ltb r.submitted_at r'.submitted_at
    || (text_eq r.submitted_at r'.submitted_at && ltb (id_or_zero r.id) (id_or_zero r'.id))

abbrev pub insert_review : Review → List Review → List Review
insert_review r [] = r ∷ []
insert_review r (r' ∷ rs) =
    let later = r' ∷ insert_review r rs in if is_before r' r then later else r ∷ r' ∷ rs

unfoldable pub by_time : List Review → List Review
by_time [] = []
by_time (r ∷ rs) = insert_review r (by_time rs)
