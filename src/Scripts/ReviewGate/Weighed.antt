-- ===== src/Scripts/ReviewGate/Weighed.antt =====
-- Where what the gate of scripts/agent_review_gate.py counts comes from.
use cubrid_mcp_server.Common.{
  ◌+◌, ◌≡◌, refl, sym, subst, true, false, not, ◌&&◌, ltb, Bool-cases, and_true, not-true, inl, inr,
  List, [], ◌∷◌, All, All-append, Among, Among-cases, here, there,
}
use cubrid_mcp_server.Common.Text.{Text, text_eq, text_eq_iff, is_in}
use cubrid_mcp_server.Common.Unicode.{Unicode}
use cubrid_mcp_server.Common.Result.{ok, bind-eq-ok}
use cubrid_mcp_server.Scripts.ReviewGate.Records.{
  Review, PullData, Searches, lacks, require, login_of,
}
use cubrid_mcp_server.Scripts.ReviewGate.Reviews.{
  copilot_logins, approved_state, commented_state, is_committer, inline_of, substantive, summary,
  notice, Assessment, is_decision, Tally, is_maintainer, is_at_head, assessed, count_round,
  copilot_review, with_decision, qualifies, count_human, human_review, review_step, weigh,
}
use cubrid_mcp_server.Scripts.ReviewGate.Submitted.{
  state_of, is_submitted, submitted, with_user, insert_review, is_before, by_time,
}

Among-first : {x y : Review} {rs : List Review} → x ≡ y → Among x (y ∷ rs)
Among-first {x = x} {rs = rs} e = subst (λ z. Among x (z ∷ rs)) e here

Among-insert : (x r : Review) (rs : List Review) → Among x (insert_review r rs) → Among x (r ∷ rs)
Among-insert x r [] m = m
Among-insert x r (r' ∷ rs) m = elim (Bool-cases (is_before r' r)) [
  | inr other ↦ rw other at m
  | inl before ↦ elim (Among-cases (rw before at m)) [
    | inl same ↦ there (Among-first same)
    | inr later ↦ elim (Among-cases (Among-insert x r rs later)) [
      | inl same ↦ Among-first same
      | inr i ↦ there (there i)
    ]
  ]
]

pub Among-by_time : (x : Review) (rs : List Review) → Among x (by_time rs) → Among x rs
unfolding by_time
Among-by_time x [] m = m
Among-by_time x (r ∷ rs) m = elim (Among-cases (Among-insert x r (by_time rs) m)) [
  | inl same ↦ Among-first same
  | inr later ↦ there (Among-by_time x rs later)
]

pub Among-submitted :
    (x : Review) (rs kept : List Review) → submitted rs ≡ ok kept → Among x kept → Among x rs
unfolding submitted
Among-submitted x [] kept e m = let is : [] ≡ kept = cc e in subst (Among x) (sym is) m
Among-submitted x (r ∷ rs) kept e m =
    let (state, _, with_state) = bind-eq-ok (require lacks r.state) _ e in
    let (user, _, with_account) = bind-eq-ok (with_user r.user) _ with_state in
    let (b, _, admitted) = bind-eq-ok (is_submitted r user state) _ with_account in
    let (rest, tail, collected) = bind-eq-ok (submitted rs) _ admitted in
    elim (Bool-cases b) [
      | inl taken ↦
          let is : r ∷ rest ≡ kept = cc (rw taken at collected) in
          elim (Among-cases (subst (Among x) (sym is) m)) [
            | inl same ↦ Among-first same
            | inr later ↦ there (Among-submitted x rs rest tail later)
          ]
      | inr left ↦
          let is : rest ≡ kept = cc (rw left at collected) in
          there (Among-submitted x rs rest tail (subst (Among x) (sym is) m))
    ]

module _ (u : Unicode) (search : Searches) (pull : PullData) (head author : Text)
    (committers : List Text) where
  -- A review in a state by a maintainer who is not the author and committed nothing, for the change
  -- as it is at the head
  pub record CountsAs (state : Text) (r : Review) : Type 0 where
    pub in_state : state_of r.state ≡ state
    pub by_maintainer : is_maintainer r.user ≡ true
    pub not_author : text_eq (login_of r.user) author ≡ false
    pub not_committer : is_committer committers (login_of r.user) ≡ false
    pub current : is_at_head u search pull head author committers r ≡ true

  pub record CountsCopilot (r : Review) : Type 0 where
    pub by_copilot : is_in (login_of r.user) copilot_logins ≡ true
    pub is_substantive : assessed u search pull head author committers r ≡ substantive
    pub current : is_at_head u search pull head author committers r ≡ true

  pub record From (rs : List Review) (P : Review → Type 0) : Type 0 where
    pub review : Review
    pub among : Among review rs
    pub holds : P review

  abbrev pub IsApprover : List Review → Text → Type 0
  IsApprover rs login = From rs (λ r. (login_of r.user ≡ login) × CountsAs approved_state r)

  abbrev pub IsCommenter : List Review → Type 0
  IsCommenter rs =
      From rs (λ r. CountsAs commented_state r × (ltb 0 (inline_of pull.comments r.id) ≡ true))

  pub record IsWeighed (rs : List Review) (tally : Tally) : Type 0 where
    pub approvals : All (IsApprover rs) tally.approved
    pub comments : All (λ login. IsCommenter rs) tally.commented
    pub rounds : All (λ n. From rs CountsCopilot) tally.ai_current

  counts_as :
      (state : Text) (r : Review)
      → text_eq (state_of r.state) state ≡ true
      → is_at_head u search pull head author committers r ≡ true
      → qualifies u search pull head author committers r ≡ true
      → CountsAs state r
  unfolding qualifies
  counts_as state r e current q =
      let own = not (text_eq (login_of r.user) author) in
      let apart = not (is_committer committers (login_of r.user)) in
      let (others, maintained) = and_true (own && apart) (is_maintainer r.user) q in
      let (not_own, not_theirs) = and_true own apart others in
      record {
        in_state = (text_eq_iff (state_of r.state) state).0 e;
        by_maintainer = maintained;
        not_author = not-true _ not_own;
        not_committer = not-true _ not_theirs;
        current = current;
      }

  count_human-IsWeighed :
      (rs : List Review) (r : Review) (tally : Tally)
      → Among r rs
      → qualifies u search pull head author committers r ≡ true
      → IsWeighed rs tally
      → IsWeighed rs (count_human u search pull head author committers r tally)
  unfolding count_human
  count_human-IsWeighed rs r tally m q w =
      let now = is_at_head u search pull head author committers r in
      let approves = text_eq (state_of r.state) approved_state in
      let comments = text_eq (state_of r.state) commented_state in
      let opens = ltb 0 (inline_of pull.comments r.id) in
      elim (Bool-cases (approves && now)) [
        | inl taken ↦
            let (state, current) = and_true approves now taken in
            let counts = counts_as approved_state r state current q in
            rw taken (record {
              approvals =
                  All-append (IsApprover rs) tally.approved (login_of r.user ∷ []) w.approvals
                    (record { review = r; among = m; holds = (refl, counts) }, tt);
              comments = w.comments;
              rounds = w.rounds;
            })
        | inr left ↦ elim (Bool-cases (comments && now && opens)) [
          | inl taken ↦
              let (at_head, inline) = and_true (comments && now) opens taken in
              let (state, current) = and_true comments now at_head in
              let counts = counts_as commented_state r state current q in
              rw (left, taken)
                (record {
                  approvals = w.approvals;
                  comments =
                      All-append (λ login. IsCommenter rs) tally.commented (login_of r.user ∷ [])
                        w.comments (record { review = r; among = m; holds = (counts, inline) }, tt);
                  rounds = w.rounds;
                })
          | inr other ↦ rw (left, other) w
        ]
      ]

  with_decision-IsWeighed :
      (rs : List Review) (r : Review) (tally : Tally)
      → IsWeighed rs tally
      → IsWeighed rs (with_decision u search pull head author committers r tally)
  unfolding with_decision
  with_decision-IsWeighed rs r tally w =
      elim (Bool-cases (is_decision u search pull head author committers r)) [
        | inl decides ↦
            rw decides
              (record { approvals = w.approvals; comments = w.comments; rounds = w.rounds })
        | inr other ↦ rw other w
      ]

  round-IsWeighed :
      (rs : List Review) (r : Review) (a : Assessment) (tally : Tally)
      → Among r rs
      → is_in (login_of r.user) copilot_logins ≡ true
      → assessed u search pull head author committers r ≡ a
      → IsWeighed rs tally
      → IsWeighed rs (count_round u search pull head author committers r a tally)
  unfolding count_round
  round-IsWeighed rs r notice tally m by_copilot e w = w
  round-IsWeighed rs r summary tally m by_copilot e w = record {
    approvals = w.approvals;
    comments = w.comments;
    rounds = w.rounds;
  }
  round-IsWeighed rs r substantive tally m by_copilot e w =
      elim (Bool-cases (is_at_head u search pull head author committers r)) [
        | inl current ↦
            let counts : CountsCopilot r = record {
              by_copilot = by_copilot;
              is_substantive = e;
              current = current;
            } in
            rw current (record {
              approvals = w.approvals;
              comments = w.comments;
              rounds =
                  All-append (λ n. From rs CountsCopilot) tally.ai_current ((1 + tally.rounds) ∷ [])
                    w.rounds (record { review = r; among = m; holds = counts }, tt);
            })
        | inr stale ↦
            rw stale (record { approvals = w.approvals; comments = w.comments; rounds = w.rounds })
      ]

  copilot-IsWeighed :
      (rs : List Review) (r : Review) (tally : Tally)
      → Among r rs
      → is_in (login_of r.user) copilot_logins ≡ true
      → IsWeighed rs tally
      → IsWeighed rs (copilot_review u search pull head author committers r tally)
  unfolding copilot_review
  copilot-IsWeighed rs r tally m by_copilot w =
      round-IsWeighed rs r _ _ m by_copilot refl
        (record { approvals = w.approvals; comments = w.comments; rounds = w.rounds })

  step-IsWeighed :
      (rs : List Review) (r : Review) (tally : Tally)
      → Among r rs
      → IsWeighed rs tally
      → IsWeighed rs (review_step u search pull head author committers r tally)
  unfolding review_step human_review
  step-IsWeighed rs r tally m w = elim (Bool-cases (is_in (login_of r.user) copilot_logins)) [
    | inl copilot ↦ rw copilot (copilot-IsWeighed rs r tally m copilot w)
    | inr other ↦ elim (Bool-cases (qualifies u search pull head author committers r)) [
      | inl qualified ↦
          rw (other, qualified)
            (count_human-IsWeighed rs r _ m qualified (with_decision-IsWeighed rs r tally w))
      | inr rejected ↦ rw (other, rejected) (with_decision-IsWeighed rs r tally w)
    ]
  ]

  pub weigh-IsWeighed :
      (rs rest : List Review) (tally : Tally)
      → ((r : Review) → Among r rest → Among r rs)
      → IsWeighed rs tally
      → IsWeighed rs (weigh u search pull head author committers rest tally)
  unfolding weigh
  weigh-IsWeighed rs [] tally m w = w
  weigh-IsWeighed rs (r ∷ rest) tally m w =
      weigh-IsWeighed rs rest _ (λ x i. m x (there i)) (step-IsWeighed rs r tally (m r here) w)
