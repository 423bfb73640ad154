-- ===== src/Safety/Lex/Cuts.antt =====
-- What a scan takes and what it leaves make up its input, and a cut takes a character at least.
use cubrid_mcp_server.Common.{
  ℕ, ◌<◌, ◌≡◌, refl, ap, Bool, false, ◌||◌, ◌==◌, ◌++◌, ◌∷◌, [], some, length, length-append, arith,
}
use cubrid_mcp_server.Common.Text.{Text}
use cubrid_mcp_server.Safety.Lex.{
  Cut, Piece, line_end, block_end, quote_end, bracket_end, cut_quote, cut,
}

abbrev Parts : Text → Cut → Type 0
Parts s k = k.taken ++ k.rest ≡ s

line_end-Parts : (s : Text) → Parts s (line_end s)
unfolding line_end
line_end-Parts [] = refl
line_end-Parts (c ∷ s) = ground (arith, line_end-Parts s)

block_end-Parts : (s : Text) → Parts s (block_end s)
unfolding block_end
block_end-Parts [] = refl
block_end-Parts (c ∷ []) = refl
block_end-Parts (c ∷ d ∷ s) = ground (arith, block_end-Parts (d ∷ s))

quote_end-Parts : (esc : Bool) (q : ℕ) (s : Text) → Parts s (quote_end esc q s)
unfolding quote_end
quote_end-Parts esc q [] = refl
quote_end-Parts esc q (c ∷ []) = refl
quote_end-Parts esc q (c ∷ d ∷ s) =
    ground (arith, quote_end-Parts esc q (d ∷ s), quote_end-Parts esc q s)

bracket_end-Parts : (s : Text) → Parts s (bracket_end s)
unfolding bracket_end
bracket_end-Parts [] = refl
bracket_end-Parts (c ∷ s) = ground (arith, bracket_end-Parts s)

abbrev pub PieceOf : Text → Piece → Type 0
PieceOf s p = p.segment.text ++ p.rest ≡ s

cut_quote-PieceOf :
    (esc : Bool) (c : ℕ) (s : Text) (p : Piece) → cut_quote esc c s ≡ some p → PieceOf (c ∷ s) p
unfolding cut_quote
cut_quote-PieceOf esc c s p e = ground (arith, quote_end-Parts esc c s, bracket_end-Parts s)

pub cut-PieceOf : (esc : Bool) (s : Text) (p : Piece) → cut esc s ≡ some p → PieceOf s p
unfolding cut
cut-PieceOf esc [] p e = ground arith
cut-PieceOf esc (c ∷ []) p e = cut_quote-PieceOf esc c [] p e
cut-PieceOf esc (c ∷ d ∷ s) p e =
    ground (arith, cut_quote-PieceOf esc c (d ∷ s) p, block_end-Parts s, line_end-Parts (c ∷ d ∷ s))

-- A segment that is cut off is not empty.
line_end-taken :
    (c : ℕ) (s : Text)
    → (c == b'\r' || c == b'\n') ≡ false
    → (line_end (c ∷ s)).taken ≡ c ∷ (line_end s).taken
unfolding line_end
line_end-taken c s h = rw h

cut_quote-text_pos :
    (esc : Bool) (c : ℕ) (s : Text) (p : Piece)
    → cut_quote esc c s ≡ some p
    → 0 < length p.segment.text
unfolding cut_quote
cut_quote-text_pos esc c s p e = ground arith

cut-text_pos : (esc : Bool) (s : Text) (p : Piece) → cut esc s ≡ some p → 0 < length p.segment.text
unfolding cut
cut-text_pos esc [] p e = ground arith
cut-text_pos esc (c ∷ []) p e = cut_quote-text_pos esc c [] p e
cut-text_pos esc (c ∷ d ∷ s) p e =
    ground (arith, cut_quote-text_pos esc c (d ∷ s) p, line_end-taken c (d ∷ s))

-- The loop gets on: what is left is shorter.
pub length-cut-lt :
    (esc : Bool) (s : Text) (p : Piece) → cut esc s ≡ some p → length p.rest < length s
length-cut-lt esc s p e = omega (
  arith,
  cut-text_pos esc s p e,
  length-append p.segment.text p.rest,
  ap length (cut-PieceOf esc s p e),
)
