-- ===== src/Safety/Lex/Partition.antt =====
-- The loop of `lex_sql` ends, and the segments it returns cut the input into consecutive parts.
use mathlib.Core.Option
use cubrid_mcp_server.Common.{
  ℕ, zero, suc, ◌≤◌, ◌≡◌, refl, ap, ◌∙◌, Bool, List, [], ◌∷◌, ◌++◌, Option, none, some, inl, inr,
  length, append_assoc, arith, Option-cases,
}
use cubrid_mcp_server.Common.Text.{Text}
use cubrid_mcp_server.Safety.Lex.{Segment, Piece, cut, flush, lex_loop, lex_sql}
use cubrid_mcp_server.Safety.Lex.Cuts.{cut-PieceOf, length-cut-lt}

-- `"".join(text for _, text in segments)`
abbrev pub texts : List Segment → Text
texts [] = []
texts (g ∷ gs) = g.text ++ texts gs

texts-flush : (pending : Text) (gs : List Segment) → texts (flush pending gs) ≡ pending ++ texts gs
texts-flush [] gs = refl
texts-flush (c ∷ s) gs = refl

module _ (esc : Bool) (fuel : ℕ) (pending : Text) (c : ℕ) (s : Text) where
  pub lex_loop-cut-none :
      cut esc (c ∷ s) ≡ none
      → lex_loop esc (suc fuel) pending (c ∷ s) ≡ lex_loop esc fuel (pending ++ c ∷ []) s
  unfolding lex_loop
  lex_loop-cut-none e = rw (e, lex_loop)

  pub lex_loop-cut-some :
      (p : Piece)
      → cut esc (c ∷ s) ≡ some p
      → lex_loop esc (suc fuel) pending (c ∷ s)
        ≡ Option.map (λ later. flush pending (p.segment ∷ later)) (lex_loop esc fuel [] p.rest)
  unfolding lex_loop
  lex_loop-cut-some p e = rw (e, lex_loop)

-- The loop has run, and the texts of its segments make up what stood before it.
abbrev pub Covers : Option (List Segment) → Text → Type 0
Covers run s = (gs : List Segment) × (run ≡ some gs) × (texts gs ≡ s)

module _ (esc : Bool) where
  pub lex_loop_total :
      (fuel : ℕ) (pending s : Text)
      → length s ≤ fuel
      → Covers (lex_loop esc fuel pending s) (pending ++ s)
  unfolding lex_loop
  lex_loop_total fuel pending [] h = (flush pending [], refl, texts-flush pending [])
  lex_loop_total zero pending (c ∷ s) h = absurd (omega arith)
  lex_loop_total (suc fuel) pending (c ∷ s) h = elim (Option-cases (cut esc (c ∷ s))) [
    | inl e ↦
        let (gs, run, parts) = lex_loop_total fuel (pending ++ c ∷ []) s (omega arith) in
        (
          gs,
          lex_loop-cut-none esc fuel pending c s e ∙ run,
          parts ∙ append_assoc pending (c ∷ []) s,
        )
    | inr (p, e) ↦
        let (gs, run, parts) =
          lex_loop_total fuel [] p.rest (omega (arith, length-cut-lt esc (c ∷ s) p e)) in
        (
          flush pending (p.segment ∷ gs),
          lex_loop-cut-some esc fuel pending c s p e ∙ rw run,
          texts-flush pending (p.segment ∷ gs)
              ∙ ap (λ t. pending ++ (p.segment.text ++ t)) parts
              ∙ ap (◌++◌ pending) (cut-PieceOf esc (c ∷ s) p e),
        )
  ]

  -- For both readings of a backslash the loop of `lex_sql` ends within its fuel with the result of
  -- `lex_sql`, and the texts of the segments, put together in order, are the input.
  pub texts-lex_sql :
      (sql : Text)
      → (lex_loop esc (length sql) [] sql ≡ some (lex_sql sql esc))
        × (texts (lex_sql sql esc) ≡ sql)
  unfolding lex_sql
  texts-lex_sql sql =
      let (gs, run, parts) = lex_loop_total (length sql) [] sql (omega arith) in
      (rw run, rw run parts)
