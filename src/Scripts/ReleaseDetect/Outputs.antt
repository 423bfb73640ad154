-- ===== src/Scripts/ReleaseDetect/Outputs.antt =====
-- What scripts/release_detect.py writes for the steps behind it.
use cubrid_mcp_server.Common.{
  ◌≡◌, refl, Bool, true, not, ◌&&◌, and_true, arith, List, [], ◌∷◌, map, All, All-append, length,
}
use cubrid_mcp_server.Common.Text.{Text, codes}
use cubrid_mcp_server.Scripts.Lines.{is_break, splitlines, IsLine, splitlines-AreLines, join-IsLine}
use cubrid_mcp_server.Scripts.ReleaseDetect.{Decision, outputs, output_line, output_lines}

is_line : Text → Bool
unfolding is_break
is_line [] = true
is_line (c ∷ s) = not (is_break c) && is_line s

is_line-IsLine : (s : Text) → is_line s ≡ true → IsLine s
unfolding is_line
is_line-IsLine [] h = tt
is_line-IsLine (c ∷ s) h =
    let (first, rest) = and_true (not (is_break c)) (is_line s) h in
    (ground arith, is_line-IsLine s rest)

output_line-IsLine : (key value : Text) → IsLine key → IsLine (output_line (key, value))
unfolding output_line is_break
output_line-IsLine key value h =
    All-append _ key _ h
      (refl, join-IsLine (codes " ") (splitlines value) (refl, tt) (splitlines-AreLines value))

map-output_line :
    (pairs : List (Text × Text)) → All (λ p. IsLine p.0) pairs → All IsLine (map output_line pairs)
map-output_line [] h = tt
map-output_line ((key, value) ∷ pairs) h =
    (output_line-IsLine key value h.0, map-output_line pairs h.1)

-- Whatever stands in a decision, its reason and its version included, it makes ten outputs of one
-- line each: no value can forge another output.
pub output_lines-AreLines :
    (decision : Decision)
    → All IsLine (output_lines decision) × (length (output_lines decision) ≡ 10)
unfolding output_lines outputs is_line
output_lines-AreLines decision = (map-output_line (outputs decision) keys, refl)
  where
    keys : All (λ p. IsLine p.0) (outputs decision)
    keys = (
      is_line-IsLine (codes "release") refl,
      (
        is_line-IsLine (codes "build") refl,
        (
          is_line-IsLine (codes "publish") refl,
          (
            is_line-IsLine (codes "verify") refl,
            (
              is_line-IsLine (codes "mode") refl,
              (
                is_line-IsLine (codes "version") refl,
                (
                  is_line-IsLine (codes "tag") refl,
                  (
                    is_line-IsLine (codes "sha") refl,
                    (
                      is_line-IsLine (codes "tag_state") refl,
                      (is_line-IsLine (codes "reason") refl, tt),
                    ),
                  ),
                ),
              ),
            ),
          ),
        ),
      ),
    )
