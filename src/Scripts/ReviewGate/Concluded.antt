-- ===== src/Scripts/ReviewGate/Concluded.antt =====
-- What a verdict of scripts/agent_review_gate.py that passes is made of.
use cubrid_mcp_server.Common.{
  ◌≡◌, refl, ap, ◌∙◌, Bool, true, false, Bool-cases, and_true, inl, inr, Option, none, some, List,
  [], ◌∷◌, ◌++◌, All, Among, here, there,
}
use cubrid_mcp_server.Common.Text.{Text, text_eq_iff}
use cubrid_mcp_server.Common.Result.{Result, ok}
use cubrid_mcp_server.Server.Identifiers.{keep}
use cubrid_mcp_server.Scripts.ReviewGate.Records.{GateError, lacks, require}
use cubrid_mcp_server.Scripts.ReviewGate.Reviews.{Tally}
use cubrid_mcp_server.Scripts.ReviewGate.{
  Block, GateVerdict, Exemption, is_nil, is_text, decision_blocks, satisfied, review_blocks,
  conclude,
}
use cubrid_mcp_server.Scripts.ReviewGate.Latest.{or_earlier}
use cubrid_mcp_server.Scripts.ReviewGate.Threads.{nil_append}

pub some_kept :
    (p : Text → Bool) (xs : List Text)
    → is_nil (keep p xs) ≡ false
    → (x : Text) × Among x xs × (p x ≡ true)
some_kept p [] h = cc
some_kept p (x ∷ xs) h = elim (Bool-cases (p x)) [
  | inl kept ↦ (x, here, kept)
  | inr left ↦ let (y, m, k) = some_kept p xs (rw left at h) in (y, there m, k)
]

pub some_of : {A B : Type 0} (xs : List A) → All (λ x. B) xs → is_nil xs ≡ false → B
some_of [] h k = cc
some_of (x ∷ xs) h k = h.0

pub nil_of : {A : Type 0} (xs : List A) → is_nil xs ≡ true → xs ≡ []
nil_of [] h = refl
nil_of (x ∷ xs) h = cc

pub text_is : (s : Text) (o : Option Text) → is_text s o ≡ true → o ≡ some s
text_is s none h = cc
text_is s (some t) h = ap some ((text_eq_iff t s).0 h)

pub is_required : {A : Type 0} (o : Option A) {a : A} → require lacks o ≡ ok a → o ≡ some a
is_required none h = cc
is_required (some x) h = cc

pub or_none : (o : Option Text) → or_earlier o none ≡ o
or_none none = refl
or_none (some s) = refl

abbrev ok_verdict : GateVerdict → Result GateError GateVerdict
ok_verdict = ok

abbrev is_passed : GateVerdict → Bool
is_passed v = v.passed

abbrev exemption_in : GateVerdict → Option Exemption
exemption_in v = v.exempt

pub not_exempt :
    {A : Type 0} (e : Exemption) (v : GateVerdict)
    → ok_verdict (record { passed = true; exempt = some e; errors = [] }) ≡ ok v
    → v.exempt ≡ none
    → A
not_exempt e v h plain =
    let is : record { passed = true; exempt = some e; errors = [] } ≡ v = cc h in
    absurd (cc (ap exemption_in is ∙ plain))

pub not_failed :
    {A : Type 0} (v : GateVerdict) {errors : List Block}
    → ok_verdict (record { passed = false; exempt = none; errors = errors }) ≡ ok v
    → v.passed ≡ true
    → A
not_failed v {errors = errors} h passed =
    let is : record { passed = false; exempt = none; errors = errors } ≡ v = cc h in
    absurd (cc (ap is_passed is ∙ passed))

pub concluded :
    (guarded : List Text) (tally : Tally) (threads : List Block) (v : GateVerdict)
    → ok_verdict (conclude guarded tally threads) ≡ ok v
    → v.passed ≡ true
    → (satisfied guarded tally ≡ true) × (decision_blocks tally.decisions ≡ []) × (threads ≡ [])
unfolding conclude
concluded guarded tally threads v h passed =
    let enough = satisfied guarded tally in
    let blocks = threads ++ review_blocks guarded enough in
    let is : conclude guarded tally threads ≡ v = cc h in
    let (counts, none_left) =
      and_true enough (is_nil (decision_blocks tally.decisions ++ blocks))
        (ap is_passed is ∙ passed) in
    let (decisions, rest) =
      nil_append (decision_blocks tally.decisions) blocks (nil_of _ none_left) in
    (counts, decisions, (nil_append threads (review_blocks guarded enough) rest).0)
