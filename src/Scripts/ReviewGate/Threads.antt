-- ===== src/Scripts/ReviewGate/Threads.antt =====
-- The threads that scripts/agent_review_gate.py lets through.
use cubrid_mcp_server.Common.{
  ℕ, ◌≡◌, ◌≢◌, refl, sym, ap, ◌∙◌, Bool, true, false, Bool-cases, inl, inr, if◌then◌else◌, Option,
  none, some, List, [], ◌∷◌, ◌++◌, All, arith,
}
use cubrid_mcp_server.Common.Text.{Text, text_eq, text_eq_iff}
use cubrid_mcp_server.Common.Result.{ok, bind-eq-ok}
use cubrid_mcp_server.Config.{is_blank}
use cubrid_mcp_server.Config.Registry.{Named, lookup}
use cubrid_mcp_server.Scripts.ReviewGate.Records.{
  Account, no_account, deleted, account, Comment, FirstComment, Thread, Searches, GateError,
  no_comment_id, no_resolution, require, login_of, identity,
}
use cubrid_mcp_server.Scripts.ReviewGate.Reviews.{requests_changes}
use cubrid_mcp_server.Scripts.ReviewGate.{
  is_opener, is_serious, resolved_block, judged, thread_blocks, all_blocks, decision_blocks,
}

identity-login : (a : Account) (login : Text) → identity a ≡ ok login → login_of a ≡ login
unfolding identity login_of
identity-login no_account login h = cc
identity-login deleted login h = cc
identity-login (account name user) login h = elim (Bool-cases (is_blank name)) [
  | inl blank ↦ cc (rw blank at h)
  | inr named ↦ cc (rw named at h)
]

required_true :
    (e : GateError) (o : Option Bool) (b : Bool) → require e o ≡ ok b → b ≡ true → o ≡ some true
required_true e none b h t = cc
required_true e (some x) b h t = cc

pub nil_append {ℓ} : {A : Type ℓ} (xs ys : List A) → xs ++ ys ≡ [] → (xs ≡ []) × (ys ≡ [])
nil_append [] ys h = (refl, h)
nil_append (x ∷ xs) ys h = cc

module _ (search : Searches) (author : Text) where
  -- A thread that Copilot or a maintainer opened with a word on security is resolved, and not by the
  -- author of the pull request.
  pub record IsSettled (t : Thread) : Type 0 where
    pub settled :
        (first : FirstComment) (body : Text)
        → t.first ≡ some first
        → first.body ≡ some body
        → is_opener (login_of first.author) ≡ true
        → search.security body ≡ true
        → (t.is_resolved ≡ some true) × (text_eq (login_of t.resolved_by) author ≡ false)

module _ (search : Searches) (author : Text) (comments : List Comment)
    (severities : List (ℕ × Text)) where
  judged-serious :
      (t : Thread) (resolved : Bool)
      → judged search author comments severities t resolved true ≡ ok []
      → (resolved ≡ true) × (text_eq (login_of t.resolved_by) author ≡ false)
  unfolding judged resolved_block
  judged-serious t false h = cc
  judged-serious t true h =
      let (resolver, e, k) = bind-eq-ok (identity t.resolved_by) _ h in
      elim (Bool-cases (text_eq resolver author)) [
        | inl own ↦ cc (rw own at k)
        | inr other ↦ (refl, rw (identity-login t.resolved_by resolver e) other)
      ]

  serious_body :
      (root : ℕ) (body : Text)
      → search.security body ≡ true
      → is_serious search author comments severities root body ≡ true
  unfolding is_serious
  serious_body root body words = rw words (ground arith)

  opened-settled :
      (t : Thread) (first : FirstComment) (root : ℕ) (body opener : Text) (resolved : Bool)
      → identity first.author ≡ ok opener
      → require no_resolution t.is_resolved ≡ ok resolved
      → is_opener (login_of first.author) ≡ true
      → search.security body ≡ true
      → (if is_opener opener
          then judged search author comments severities t resolved
              (is_serious search author comments severities root body)
          else ok [])
        ≡ ok []
      → (t.is_resolved ≡ some true) × (text_eq (login_of t.resolved_by) author ≡ false)
  opened-settled t first root body opener resolved is_login is_state opens words h =
      let opens' : is_opener opener ≡ true =
        sym (ap is_opener (identity-login first.author opener is_login)) ∙ opens in
      let (done, other) =
        judged-serious t resolved (rw (opens', serious_body root body words) at h) in
      (required_true no_resolution t.is_resolved resolved is_state done, other)

  thread_blocks-IsSettled :
      (t : Thread)
      → thread_blocks search author comments severities t ≡ ok []
      → IsSettled search author t
  unfolding thread_blocks judged resolved_block
  thread_blocks-IsSettled t h = record {
    settled = λ first body is_first is_body opens words.
        let (root, _, k) =
          bind-eq-ok (require no_comment_id first.database_id) _ (rw (is_first, is_body) at h) in
        let (resolved, is_state, k') = bind-eq-ok (require no_resolution t.is_resolved) _ k in
        let (opener, is_login, judgement) = bind-eq-ok (identity first.author) _ k' in
        opened-settled t first root body opener resolved is_login is_state opens words judgement;
  }

  pub all_blocks-AreSettled :
      (ts : List Thread)
      → all_blocks search author comments severities ts ≡ ok []
      → All (IsSettled search author) ts
  unfolding all_blocks
  all_blocks-AreSettled [] h = tt
  all_blocks-AreSettled (t ∷ ts) h =
      let (blocks, e, k) = bind-eq-ok (thread_blocks search author comments severities t) _ h in
      let (rest, e', k') = bind-eq-ok (all_blocks search author comments severities ts) _ k in
      let (none_here, none_later) = nil_append blocks rest (cc k') in
      (
        thread_blocks-IsSettled t (e ∙ ap ok none_here),
        all_blocks-AreSettled ts (e' ∙ ap ok none_later),
      )

pub no_request :
    (login : Text) (ds : Named Text)
    → decision_blocks ds ≡ []
    → lookup login ds ≢ some requests_changes
unfolding decision_blocks lookup
no_request login [] h e = cc
no_request login (d ∷ ds) h e = elim (Bool-cases (text_eq d.1 requests_changes)) [
  | inl requests ↦ cc (rw requests at h)
  | inr other ↦ elim (Bool-cases (text_eq login d.0)) [
    | inl own ↦
        let is : d.1 ≡ requests_changes = cc (rw own at e) in
        cc (other, (text_eq_iff d.1 requests_changes).1 is)
    | inr another ↦ no_request login ds (rw other at h) (rw another at e)
  ]
]
