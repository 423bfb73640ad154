-- ===== src/Audit/Redaction.antt =====
-- What a record of cubrid_mcp_server/audit.py cannot depend on, and what it can hold.
use cubrid_mcp_server.Common.{
  ℕ, suc, ◌≡◌, refl, ap, ◌∙◌, Bool, true, false, some, List, [], ◌∷◌, length, arith,
}
use cubrid_mcp_server.Common.Text.{Text, lstrip}
use cubrid_mcp_server.Common.Unicode.{Unicode}
use cubrid_mcp_server.Common.Result.{Result, ok, err}
use cubrid_mcp_server.Audit.References.{table_references}
use cubrid_mcp_server.Audit.{
  noise, blank_out, strip_noise, alpha_run, group_upper, first_seen, unquote_all, category,
  identifiers, Outcome, AuditLog, tracked, track,
}

-- Two texts of one length that differ at marked characters only.
abbrev pub IsSameOutside : List Bool → Text → Text → Type 0
IsSameOutside [] [] [] = Unit
IsSameOutside (true ∷ bs) (c ∷ s) (d ∷ t) = IsSameOutside bs s t
IsSameOutside (false ∷ bs) (c ∷ s) (d ∷ t) = (c ≡ d) × IsSameOutside bs s t
IsSameOutside _ _ _ = ⊥

blank_out-same :
    (bs : List Bool) (s t : Text) → IsSameOutside bs s t → blank_out s bs ≡ blank_out t bs
unfolding blank_out
blank_out-same [] [] [] h = refl
blank_out-same (true ∷ bs) (c ∷ s) (d ∷ t) h = ap (◌∷◌ b' ') (blank_out-same bs s t h)
blank_out-same (false ∷ bs) (c ∷ s) (d ∷ t) h = cc (h.0, blank_out-same bs s t h.1)
blank_out-same _ _ _ h = absurd h

length-same : (bs : List Bool) (s t : Text) → IsSameOutside bs s t → length s ≡ length t
length-same [] [] [] h = refl
length-same (true ∷ bs) (c ∷ s) (d ∷ t) h = ap suc (length-same bs s t h)
length-same (false ∷ bs) (c ∷ s) (d ∷ t) h = ap suc (length-same bs s t h.1)
length-same _ _ _ h = absurd h

strip_noise-same :
    (s t : Text) → noise s ≡ noise t → IsSameOutside (noise s) s t → strip_noise s ≡ strip_noise t
unfolding strip_noise
strip_noise-same s t e h = blank_out-same (noise s) s t h ∙ ap (blank_out t) e

module _ (u : Unicode) where
  category-same :
      (s t : Text)
      → length s ≡ length t
      → strip_noise s ≡ strip_noise t
      → category u (some s) ≡ category u (some t)
  unfolding category
  category-same [] [] l e = refl
  category-same [] (d ∷ t) l e = absurd (omega arith)
  category-same (c ∷ s) [] l e = absurd (omega arith)
  category-same (c ∷ s) (d ∷ t) l e = ap (λ x. group_upper u (alpha_run (lstrip u.is_space x))) e

  identifiers-same :
      (s t : Text)
      → length s ≡ length t
      → strip_noise s ≡ strip_noise t
      → identifiers u (some s) ≡ identifiers u (some t)
  unfolding identifiers
  identifiers-same [] [] l e = refl
  identifiers-same [] (d ∷ t) l e = absurd (omega arith)
  identifiers-same (c ∷ s) [] l e = absurd (omega arith)
  identifiers-same (c ∷ s) (d ∷ t) l e =
      ap (λ x. first_seen [] (unquote_all (table_references u x))) e

  -- The literals and comments of a statement do not reach the log: two statements with noise at the
  -- same places, which differ in the noise alone, leave the same records, however the call ends.
  pub track-IsSameOutside :
      {E A : Type 0} (class_name : E → Text) (tool s t : Text) (duration : ℕ) (outcome : Outcome)
      (ended : Result E A) (log : AuditLog)
      → noise s ≡ noise t
      → IsSameOutside (noise s) s t
      → track u class_name tool (some s) duration outcome ended log
        ≡ track u class_name tool (some t) duration outcome ended log
  unfolding track tracked
  track-IsSameOutside class_name tool s t duration outcome (ok a) log e h =
      let l = length-same (noise s) s t h in
      let k = strip_noise-same s t e h in
      rw (category-same s t l k, identifiers-same s t l k, l) refl
  track-IsSameOutside class_name tool s t duration outcome (err x) log e h =
      let l = length-same (noise s) s t h in
      let k = strip_noise-same s t e h in
      rw (category-same s t l k, identifiers-same s t l k, l) refl
