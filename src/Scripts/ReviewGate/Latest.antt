-- ===== src/Scripts/ReviewGate/Latest.antt =====
-- The latest decision of each maintainer, in scripts/agent_review_gate.py.
use cubrid_mcp_server.Common.{
  ltb, ◌≡◌, refl, sym, ap, subst, ◌∙◌, Bool, true, false, ◌&&◌, Bool-cases, or_false, inl, inr,
  if◌then◌else◌, Option, none, some, List, [], ◌∷◌, ◌++◌, arith,
}
use cubrid_mcp_server.Common.Text.{Text, codes, text_eq, text_eq_iff, is_in}
use cubrid_mcp_server.Common.Unicode.{Unicode}
use cubrid_mcp_server.Config.Registry.{Named, names, lookup}
use cubrid_mcp_server.Scripts.PypiGuard.{replaced, put}
use cubrid_mcp_server.Scripts.ReviewGate.Records.{Review, PullData, Searches, login_of}
use cubrid_mcp_server.Scripts.ReviewGate.Reviews.{
  copilot_logins, maintainers, approved_state, commented_state, inline_of, is_at_head, Assessment,
  substantive, summary, notice, Tally, is_maintainer, is_decision, count_round, copilot_review,
  with_decision, qualifies, count_human, human_review, review_step, weigh,
}
use cubrid_mcp_server.Scripts.ReviewGate.Submitted.{state_of}

apart : (n m k : Text) → text_eq n k ≡ true → text_eq m k ≡ false → text_eq n m ≡ false
apart n m k same other = elim (Bool-cases (text_eq n m)) [
  | inr differs ↦ differs
  | inl equal ↦
      absurd (
        cc
          (other, (text_eq_iff m k).1 (sym ((text_eq_iff n m).0 equal) ∙ (text_eq_iff n k).0 same)))
]

if_again :
    {A : Type 0} (b : Bool) (x y z : A)
    → (if b then x else z) ≡ (if b then x else if b then y else z)
if_again true x y z = refl
if_again false x y z = refl

-- Copilot is not a maintainer.
copilot_no_maintainer :
    (login : Text) → is_in login copilot_logins ≡ true → is_in login maintainers ≡ false
unfolding copilot_logins maintainers is_in text_eq
copilot_no_maintainer login h =
    let is : login ≡ codes "copilot-pull-request-reviewer[bot]" =
      (text_eq_iff login _).0 (ground (arith, h)) in
    subst (λ l. is_in l maintainers ≡ false) (sym is) refl

lookup-replaced :
    (n m v : Text) (xs : Named Text)
    → is_in m (names xs) ≡ true
    → lookup n (replaced m v xs) ≡ (if text_eq n m then some v else lookup n xs)
unfolding names lookup is_in
lookup-replaced n m v [] h = cc
lookup-replaced n m v (x ∷ xs) h = elim (Bool-cases (text_eq m x.0)) [
  | inl same ↦
      rw (same, (text_eq_iff m x.0).0 same)
        (if_again (text_eq n x.0) (some v) (some x.1) (lookup n xs))
  | inr other ↦ elim (Bool-cases (text_eq n x.0)) [
    | inl this ↦ rw (other, this, apart n m x.0 this other) refl
    | inr that ↦ rw (other, that) (lookup-replaced n m v xs (rw other at h))
  ]
]

lookup-snoc :
    (n m v : Text) (xs : Named Text)
    → is_in m (names xs) ≡ false
    → lookup n (xs ++ (m, v) ∷ []) ≡ (if text_eq n m then some v else lookup n xs)
unfolding names lookup is_in
lookup-snoc n m v [] h = refl
lookup-snoc n m v (x ∷ xs) h =
    let (other, later) = or_false (text_eq m x.0) (is_in m (names xs)) h in
    elim (Bool-cases (text_eq n x.0)) [
      | inl this ↦ rw (this, apart n m x.0 this other) refl
      | inr that ↦ rw that (lookup-snoc n m v xs later)
    ]

lookup-put :
    (n m v : Text) (xs : Named Text)
    → lookup n (put m v xs) ≡ (if text_eq n m then some v else lookup n xs)
unfolding put
lookup-put n m v xs = elim (Bool-cases (is_in m (names xs))) [
  | inl known ↦ rw known (lookup-replaced n m v xs known)
  | inr new ↦ rw new (lookup-snoc n m v xs new)
]

abbrev pub or_earlier : Option Text → Option Text → Option Text
or_earlier none earlier = earlier
or_earlier (some state) earlier = some state

or_earlier_assoc :
    (a b c : Option Text) → or_earlier (or_earlier a b) c ≡ or_earlier a (or_earlier b c)
or_earlier_assoc none b c = refl
or_earlier_assoc (some s) b c = refl

module _ (u : Unicode) (search : Searches) (pull : PullData) (head author : Text)
    (committers : List Text) where
  -- The decision that a review is, if it is one of this maintainer
  abbrev pub own_decision : Text → Review → Option Text
  own_decision login r =
      if is_decision u search pull head author committers r && text_eq login (login_of r.user)
      then some (state_of r.state)
      else none

  -- The last of the decisions of a maintainer
  unfoldable pub last_decision : Text → List Review → Option Text
  last_decision login [] = none
  last_decision login (r ∷ rs) = or_earlier (last_decision login rs) (own_decision login r)

  with_decision-lookup :
      (login : Text) (r : Review) (tally : Tally)
      → lookup login (with_decision u search pull head author committers r tally).decisions
        ≡ or_earlier (own_decision login r) (lookup login tally.decisions)
  unfolding with_decision
  with_decision-lookup login r tally =
      elim (Bool-cases (is_decision u search pull head author committers r)) [
        | inr other ↦ rw other refl
        | inl decides ↦ elim (Bool-cases (text_eq login (login_of r.user))) [
          | inl same ↦
              rw
                (
                  decides,
                  lookup-put login (login_of r.user) (state_of r.state) tally.decisions,
                  same,
                )
                refl
          | inr other ↦
              rw
                (
                  decides,
                  lookup-put login (login_of r.user) (state_of r.state) tally.decisions,
                  other,
                )
                refl
        ]
      ]

  count_human-decisions :
      (r : Review) (tally : Tally)
      → (count_human u search pull head author committers r tally).decisions ≡ tally.decisions
  unfolding count_human
  count_human-decisions r tally =
      let now = is_at_head u search pull head author committers r in
      let opens = ltb 0 (inline_of pull.comments r.id) in
      elim (Bool-cases (text_eq (state_of r.state) approved_state && now)) [
        | inl approves ↦ rw approves refl
        | inr other ↦
            elim (Bool-cases (text_eq (state_of r.state) commented_state && now && opens)) [
              | inl comments ↦ rw (other, comments) refl
              | inr neither ↦ rw (other, neither) refl
            ]
      ]

  count_round-decisions :
      (r : Review) (a : Assessment) (tally : Tally)
      → (count_round u search pull head author committers r a tally).decisions ≡ tally.decisions
  unfolding count_round
  count_round-decisions r notice tally = refl
  count_round-decisions r summary tally = refl
  count_round-decisions r substantive tally =
      elim (Bool-cases (is_at_head u search pull head author committers r)) [
        | inl current ↦ rw current refl
        | inr stale ↦ rw stale refl
      ]

  copilot_no_decision :
      (r : Review)
      → is_in (login_of r.user) copilot_logins ≡ true
      → is_decision u search pull head author committers r ≡ false
  unfolding is_decision is_maintainer
  copilot_no_decision r h = rw (copilot_no_maintainer (login_of r.user) h) (ground arith)

  step-lookup :
      (login : Text) (r : Review) (tally : Tally)
      → lookup login (review_step u search pull head author committers r tally).decisions
        ≡ or_earlier (own_decision login r) (lookup login tally.decisions)
  unfolding review_step human_review copilot_review
  step-lookup login r tally = elim (Bool-cases (is_in (login_of r.user) copilot_logins)) [
    | inl copilot ↦ rw (copilot, copilot_no_decision r copilot, count_round-decisions) refl
    | inr other ↦ elim (Bool-cases (qualifies u search pull head author committers r)) [
      | inl qualified ↦
          rw (other, qualified, count_human-decisions) (with_decision-lookup login r tally)
      | inr rejected ↦ rw (other, rejected) (with_decision-lookup login r tally)
    ]
  ]

  pub weigh-lookup :
      (login : Text) (rs : List Review) (tally : Tally)
      → lookup login (weigh u search pull head author committers rs tally).decisions
        ≡ or_earlier (last_decision login rs) (lookup login tally.decisions)
  unfolding weigh last_decision
  weigh-lookup login [] tally = refl
  weigh-lookup login (r ∷ rs) tally =
      weigh-lookup login rs (review_step u search pull head author committers r tally)
      ∙ ap (or_earlier (last_decision login rs)) (step-lookup login r tally)
      ∙ sym (
          or_earlier_assoc (last_decision login rs) (own_decision login r)
            (lookup login tally.decisions))
