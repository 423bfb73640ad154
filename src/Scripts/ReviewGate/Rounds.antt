-- ===== src/Scripts/ReviewGate/Rounds.antt =====
-- The rounds of reviews by Copilot that scripts/agent_review_gate.py counts.
use cubrid_mcp_server.Common.{
  ℕ, ltb, ◌≡◌, ◌+◌, refl, ◌&&◌, Bool-cases, inl, inr, if◌then◌else◌, List, [], ◌∷◌, arith,
}
use cubrid_mcp_server.Common.Text.{Text, text_eq, is_in}
use cubrid_mcp_server.Common.Unicode.{Unicode}
use cubrid_mcp_server.Scripts.ReviewGate.Records.{Review, PullData, Searches, login_of}
use cubrid_mcp_server.Scripts.ReviewGate.Reviews.{
  copilot_logins, approved_state, commented_state, Assessment, substantive, summary, notice,
  inline_of, is_at_head, Tally, is_decision, assessed, count_round, copilot_review, with_decision,
  qualifies, count_human, human_review, review_step, weigh,
}
use cubrid_mcp_server.Scripts.ReviewGate.Submitted.{state_of}

abbrev is_round : Assessment → ℕ
is_round notice = 0
is_round summary = 1
is_round substantive = 1

module _ (u : Unicode) (search : Searches) (pull : PullData) (head author : Text)
    (committers : List Text) where
  -- The reviews by Copilot that are no notice
  unfoldable pub published_rounds : List Review → ℕ
  published_rounds [] = 0
  published_rounds (r ∷ rs) =
      (if is_in (login_of r.user) copilot_logins
        then is_round (assessed u search pull head author committers r)
        else 0)
      + published_rounds rs

  count_round-rounds :
      (r : Review) (a : Assessment) (tally : Tally)
      → (count_round u search pull head author committers r a tally).rounds
        ≡ tally.rounds + is_round a
  unfolding count_round
  count_round-rounds r notice tally = omega arith
  count_round-rounds r summary tally = omega arith
  count_round-rounds r substantive tally =
      elim (Bool-cases (is_at_head u search pull head author committers r)) [
        | inl current ↦ rw current (omega arith)
        | inr stale ↦ rw stale (omega arith)
      ]

  with_decision-rounds :
      (r : Review) (tally : Tally)
      → (with_decision u search pull head author committers r tally).rounds ≡ tally.rounds
  unfolding with_decision
  with_decision-rounds r tally =
      elim (Bool-cases (is_decision u search pull head author committers r)) [
        | inl decides ↦ rw decides refl
        | inr other ↦ rw other refl
      ]

  count_human-rounds :
      (r : Review) (tally : Tally)
      → (count_human u search pull head author committers r tally).rounds ≡ tally.rounds
  unfolding count_human
  count_human-rounds r tally =
      let now = is_at_head u search pull head author committers r in
      let opens = ltb 0 (inline_of pull.comments r.id) in
      elim (Bool-cases (text_eq (state_of r.state) approved_state && now)) [
        | inl approves ↦ rw approves refl
        | inr other ↦
            elim (Bool-cases (text_eq (state_of r.state) commented_state && now && opens)) [
              | inl comments ↦ rw (other, comments) refl
              | inr neither ↦ rw (other, neither) refl
            ]
      ]

  step-rounds :
      (r : Review) (tally : Tally)
      → (review_step u search pull head author committers r tally).rounds
        ≡ tally.rounds
          + (if is_in (login_of r.user) copilot_logins
              then is_round (assessed u search pull head author committers r)
              else 0)
  unfolding review_step human_review copilot_review
  step-rounds r tally = elim (Bool-cases (is_in (login_of r.user) copilot_logins)) [
    | inl copilot ↦ rw copilot (count_round-rounds r _ _)
    | inr other ↦ elim (Bool-cases (qualifies u search pull head author committers r)) [
      | inl qualified ↦
          rw (other, qualified, count_human-rounds, with_decision-rounds) (omega arith)
      | inr rejected ↦ rw (other, rejected, with_decision-rounds) (omega arith)
    ]
  ]

  pub weigh-rounds :
      (rs : List Review) (tally : Tally)
      → (weigh u search pull head author committers rs tally).rounds
        ≡ tally.rounds + published_rounds rs
  unfolding weigh published_rounds
  weigh-rounds [] tally = omega arith
  weigh-rounds (r ∷ rs) tally = omega (
    arith,
    weigh-rounds rs (review_step u search pull head author committers r tally),
    step-rounds r tally,
  )
