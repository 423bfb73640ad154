-- ===== src/Audit.antt =====
-- cubrid_mcp_server/audit.py: what a record keeps of a statement, and the records of a call.
pub mod References
pub mod Redaction
pub mod Shapes
use cubrid_mcp_server.Common.{
  ℕ, zero, suc, Bool, true, false, not, ◌&&◌, ◌||◌, ◌==◌, if◌then◌else◌, Option, none, some, List,
  [], ◌∷◌, ◌++◌, length, replicate,
}
use cubrid_mcp_server.Common.Text.{Text, codes, is_in, lstrip, replace_char}
use cubrid_mcp_server.Common.Unicode.{Unicode, upper, alpha_ascii, digit_ascii}
use cubrid_mcp_server.Common.Result.{Result, ok, err}
use cubrid_mcp_server.Value.{ℤ}
use cubrid_mcp_server.Safety.Lex.{Kind, Segment, lex_sql}
use cubrid_mcp_server.Audit.References.{table_references}

-- The rest of `"[A-Za-z_][A-Za-z0-9_]*"` behind its first letter.
unfoldable pub strict_tail : Text → Bool
strict_tail [] = false
strict_tail (c ∷ []) = c == b'"'
strict_tail (c ∷ d ∷ s) = (alpha_ascii c || digit_ascii c || c == b'_') && strict_tail (d ∷ s)

-- `_STRICT_QUOTED_IDENTIFIER.fullmatch(text)`
unfoldable pub is_strict_quoted : Text → Bool
is_strict_quoted [] = false
is_strict_quoted (c ∷ []) = false
is_strict_quoted (c ∷ d ∷ s) = c == b'"' && ((alpha_ascii d || d == b'_') && strict_tail s)

abbrev pub is_code : Kind → Bool
is_code Kind.code = true
is_code _ = false

unfoldable pub is_noise : Segment → Bool
is_noise g = not (is_code g.kind) && not (is_strict_quoted g.text)

-- One reading's marks, a character at a time.
unfoldable pub marks : List Segment → List Bool
marks [] = []
marks (g ∷ gs) = replicate (length g.text) (is_noise g) ++ marks gs

unfoldable pub either : List Bool → List Bool → List Bool
either [] bs = []
either (a ∷ rest) [] = []
either (a ∷ rest) (b ∷ bs) = (a || b) ∷ either rest bs

-- A character is noise when one of the two readings says so.
unfoldable pub noise : Text → List Bool
noise sql = either (marks (lex_sql sql false)) (marks (lex_sql sql true))

-- `" " if blank else ch for ch, blank in zip(sql, noise)`
unfoldable pub blank_out : Text → List Bool → Text
blank_out [] bs = []
blank_out (c ∷ s) [] = []
blank_out (c ∷ s) (b ∷ bs) = (if b then b' ' else c) ∷ blank_out s bs

unfoldable pub strip_noise : Text → Text
strip_noise sql = blank_out sql (noise sql)

-- `[A-Za-z]+` at the start
unfoldable pub alpha_run : Text → Text
alpha_run [] = []
alpha_run (c ∷ s) = let more = c ∷ alpha_run s in if alpha_ascii c then more else []

abbrev pub group_upper : Unicode → Text → Option Text
group_upper u [] = none
group_upper u (c ∷ s) = some (upper u (c ∷ s))

-- `list(dict.fromkeys(names))`
unfoldable pub first_seen : List Text → List Text → List Text
first_seen seen [] = []
first_seen seen (x ∷ xs) =
    let new = x ∷ first_seen (x ∷ seen) xs in
    let old = first_seen seen xs in if is_in x seen then old else new

unfoldable pub unquote_all : List Text → List Text
unquote_all [] = []
unquote_all (x ∷ xs) = replace_char b'"' [] x ∷ unquote_all xs

module _ (u : Unicode) where
  unfoldable pub category : Option Text → Option Text
  category none = none
  category (some []) = none
  category (some (c ∷ s)) = group_upper u (alpha_run (lstrip u.is_space (strip_noise (c ∷ s))))

  unfoldable pub identifiers : Option Text → List Text
  identifiers none = []
  identifiers (some []) = []
  identifiers (some (c ∷ s)) =
      first_seen [] (unquote_all (table_references u (strip_noise (c ∷ s))))

-- The payload of one record.
pub record Payload : Type 0 where
  pub tool : Text
  pub status : Text
  pub category : Option Text
  pub identifiers : List Text
  pub sql_length : Option ℕ
  pub row_count : Option ℤ
  pub truncated : Option Bool
  pub duration_ms : ℕ
  pub error_type : Option Text

pub record Outcome : Type 0 where
  pub row_count : Option ℤ
  pub truncated : Option Bool

-- The logger: whether it is enabled, and the records it wrote, the last one first.
pub record AuditLog : Type 0 where
  pub enabled : Bool
  pub records : List Payload

abbrev pub sql_length : Option Text → Option ℕ
sql_length none = none
sql_length (some sql) = some (length sql)

-- `record`
unfoldable pub write_record : Payload → AuditLog → AuditLog
write_record p log = if log.enabled then record log { records = p ∷ log.records } else log

module _ (u : Unicode) {E A : Type 0} (class_name : E → Text) where
  -- The payload of `track`, given the time it took and how the block ended.
  unfoldable pub tracked : Text → Option Text → ℕ → Outcome → Result E A → Payload
  tracked tool sql duration outcome (ok a) = record {
    tool = tool;
    status = codes "ok";
    category = category u sql;
    identifiers = identifiers u sql;
    sql_length = sql_length sql;
    row_count = outcome.row_count;
    truncated = outcome.truncated;
    duration_ms = duration;
    error_type = none;
  }
  tracked tool sql duration outcome (err e) = record {
    tool = tool;
    status = codes "error";
    category = category u sql;
    identifiers = identifiers u sql;
    sql_length = sql_length sql;
    row_count = none;
    truncated = none;
    duration_ms = duration;
    error_type = some (class_name e);
  }

  unfoldable pub track : Text → Option Text → ℕ → Outcome → Result E A → AuditLog → AuditLog
  track tool sql duration outcome ended log =
      write_record (tracked tool sql duration outcome ended) log
