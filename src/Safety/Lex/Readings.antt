-- ===== src/Safety/Lex/Readings.antt =====
-- Where the two readings of a backslash, with and without escapes, agree.
use cubrid_mcp_server.Common.{
  ℕ, zero, suc, ◌≡◌, refl, sym, ap, ◌∙◌, Bool, true, false, not, if◌then◌else◌, ◌&&◌, ◌||◌, ◌==◌,
  List, [], ◌∷◌, ◌++◌, Option, none, some, inl, inr, length, any, arith, Option-cases, map-eq-some,
  or_false,
}
use cubrid_mcp_server.Common.Text.{Text}
use cubrid_mcp_server.Safety.Lex.{
  code, comment, quoted, unterminated, Segment, Piece, Cut, push, quote_end, cut_quote, cut, flush,
  lex_loop, lex_sql,
}
use cubrid_mcp_server.Safety.Lex.Partition.{lex_loop_total, lex_loop-cut-none, lex_loop-cut-some}

abbrev pub is_backslash : ℕ → Bool
is_backslash c = c == b'\\'

abbrev pub is_literal_quote : Text → Bool
is_literal_quote [] = false
is_literal_quote (c ∷ s) = c == b'\'' || c == b'"'

-- A segment `'...'` or `"..."`, closed or not, that holds a backslash.
abbrev pub has_backslash : Segment → Bool
has_backslash g = elim g.kind [
  | code ↦ false
  | comment ↦ false
  | quoted ↦ is_literal_quote g.text && any is_backslash g.text
  | unterminated ↦ is_literal_quote g.text && any is_backslash g.text
]

-- The scan at a character that is no backslash: both readings make the same tests.
abbrev plain_step : Bool → ℕ → ℕ → ℕ → Text → Cut
plain_step esc q c d s =
    if not (c == q)
    then push c (quote_end esc q (d ∷ s))
    else if d == q
    then push c (push d (quote_end esc q s))
    else record { taken = c ∷ []; rest = d ∷ s; closed = true }

quote_end_step :
    (esc : Bool) (q c d : ℕ) (s : Text)
    → is_backslash c ≡ false
    → quote_end esc q (c ∷ d ∷ s) ≡ plain_step esc q c d s
unfolding quote_end
quote_end_step esc q c d s h = ground arith

quote_end-taken_head :
    (q c : ℕ) (s : Text)
    → any is_backslash (quote_end false q (c ∷ s)).taken ≡ false
    → is_backslash c ≡ false
unfolding quote_end
quote_end-taken_head q c [] h = ground arith
quote_end-taken_head q c (d ∷ s) h = ground arith

quote_end_agree :
    (q : ℕ) (s : Text)
    → any is_backslash (quote_end false q s).taken ≡ false
    → quote_end true q s ≡ quote_end false q s
quote_end_agree q [] h = unfold quote_end in refl
quote_end_agree q (c ∷ []) h = unfold quote_end in ground arith
quote_end_agree q (c ∷ d ∷ s) h =
    let plain = quote_end-taken_head q c (d ∷ s) h in
    let taken = rw (quote_end_step false q c d s plain) at h in
    rw (quote_end_step true q c d s plain, quote_end_step false q c d s plain)
      (ground (arith, taken, quote_end_agree q (d ∷ s), quote_end_agree q s))

quote_end_backtick : (s : Text) → quote_end true b'`' s ≡ quote_end false b'`' s
unfolding quote_end
quote_end_backtick [] = refl
quote_end_backtick (c ∷ []) = refl
quote_end_backtick (c ∷ d ∷ s) = ground (arith, quote_end_backtick (d ∷ s), quote_end_backtick s)

-- What the reading without escapes cuts off holds no backslash in a literal.
abbrev IsPlain : Option Piece → Type 0
IsPlain none = Unit
IsPlain (some p) = has_backslash p.segment ≡ false

cut_quote_agree :
    (c : ℕ) (s : Text) → IsPlain (cut_quote false c s) → cut_quote true c s ≡ cut_quote false c s
unfolding cut_quote
cut_quote_agree c s h = ground (arith, quote_end_agree c s, quote_end_backtick s)

cut_agree : (s : Text) → IsPlain (cut false s) → cut true s ≡ cut false s
unfolding cut
cut_agree [] h = refl
cut_agree (c ∷ []) h = cut_quote_agree c [] h
cut_agree (c ∷ d ∷ s) h = ground (arith, cut_quote_agree c (d ∷ s))

any-flush :
    (pending : Text) (gs : List Segment)
    → any has_backslash (flush pending gs) ≡ any has_backslash gs
any-flush [] gs = refl
any-flush (c ∷ s) gs = refl

lex_loop_agree :
    (fuel : ℕ) (pending s : Text) (gs : List Segment)
    → lex_loop false fuel pending s ≡ some gs
    → any has_backslash gs ≡ false
    → lex_loop true fuel pending s ≡ some gs
lex_loop_agree fuel pending [] gs e h = unfold lex_loop in e
lex_loop_agree zero pending (c ∷ s) gs e h = unfold lex_loop in cc
lex_loop_agree (suc fuel) pending (c ∷ s) gs e h = elim (Option-cases (cut false (c ∷ s))) [
  | inl no_cut ↦
      let same = cut_agree (c ∷ s) (rw no_cut tt) in
      lex_loop-cut-none true fuel pending c s (same ∙ no_cut)
      ∙ lex_loop_agree fuel (pending ++ c ∷ []) s gs
          (sym (lex_loop-cut-none false fuel pending c s no_cut) ∙ e) h
  | inr (p, one) ↦
      let (later, run, parts) =
        map-eq-some _ (lex_loop false fuel [] p.rest)
          (sym (lex_loop-cut-some false fuel pending c s p one) ∙ e) in
      let clean = sym (any-flush pending (p.segment ∷ later)) ∙ ap (any has_backslash) parts ∙ h in
      let same = cut_agree (c ∷ s) (rw one (or_false (has_backslash p.segment) _ clean).0) in
      lex_loop-cut-some true fuel pending c s p (same ∙ one)
      ∙ rw (lex_loop_agree fuel [] p.rest later run (or_false (has_backslash p.segment) _ clean).1)
          (ap some parts)
]

-- If no literal that the reading without escapes finds holds a backslash, then the reading with
-- escapes finds the same segments.
pub lex_sql_agree :
    (sql : Text)
    → any has_backslash (lex_sql sql false) ≡ false
    → lex_sql sql true ≡ lex_sql sql false
unfolding lex_sql
lex_sql_agree sql h =
    let (gs, run, _) = lex_loop_total false (length sql) [] sql (omega arith) in
    rw (run, lex_loop_agree (length sql) [] sql gs run (rw run at h))
