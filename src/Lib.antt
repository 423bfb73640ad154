-- ===== src/Lib.antt =====
-- cubrid_mcp_server: an MCP server over CUBRID that answers reads and, when asked to, writes.
--
-- A client sends SQL. The checks of cubrid_mcp_server/safety.py decide whether a statement may run;
-- `Database` of cubrid_mcp_server/database.py runs it on the one connection and ends its
-- transaction; cubrid_mcp_server/server.py puts the two together in its tools, cuts the rows to a
-- budget and fences what users supply.
--
-- Common/ holds what Python has of itself: Text is `str` as a list of code points, Unicode the
-- character tables behind `str.upper`, `str.isspace` and `\w`, with the laws the code relies on,
-- and Result a value or the exception. Value.antt has the values that the driver returns.
--
-- Safety/: Lex is `lex_sql`; Render is `_render`, `strip_comments` and `_cubrid_statements`; Tokens
-- is `_code_tokens` and `_first_name`; SideEffect is `_side_effect`; Statement holds the keyword
-- sets and the functions that walk the tokens of sqlparse; Checks is `_parse`, `ensure_read_only`,
-- `ensure_query_statement`, `ensure_write_allowed` and `statement_keyword`. `sqlparse.parse` is a
-- parameter, a function from texts to statements; a statement is its value and the tree of its
-- tokens.
--
-- Database/: Exceptions has the exception classes and chains; Driver is pycubrid as a parameter: a
-- world that answers each call or raises, with a log of the calls; Session has the connection, the
-- cursor and the context managers; Statements has the methods that run statements and the two
-- probes. A method is an action on the fields of the object, the world and the log. The lock is
-- held through each method, so methods run one after another.
--
-- Config.antt is `_parse_config`, Config/Numbers Python's `int`, Config/Registry
-- `ConnectionRegistry`. There `str.lower`, the value of a digit of any script and `float` are
-- parameters; a float is known by whether it is finite and positive. Context.antt is
-- `AppContext.from_env` behind the registry, its lookups and `close`. Audit.antt is what a record
-- of cubrid_mcp_server/audit.py keeps of a statement, `record` and `track`, Audit/References the
-- regular expression for table names; the time a call took is a parameter.
--
-- Server/: Render is `_coerce`, `_render_rows` and `_fit_row`; Fence is `_as_untrusted`;
-- Identifiers is `_Table`, `_match_table`, `_resolve_table` and `_quote_ident`; Tools is
-- `execute_query` and `execute_write`, with the database and the audit log of the selected
-- connection as their state; Explain is `explain_query`, where `str(value or "")` of a driver's
-- value is a parameter; Counts is `table_row_counts`; Catalog is the other schema tools, Catalog/Rows
-- how they read the rows of the catalog, and Groups the grouping of rows by `setdefault` and
-- `append`; WriteMode is `_write_mode_requested`; Requests puts the tools that are always offered
-- together. A column of the catalog that holds a name is read as a string, and a row with another
-- value there raises where it is read.
--
-- Scripts/: ReleaseDetect is scripts/release_detect.py, with what `git` answers and the assignments
-- that `ast` finds as parameters; CiScope is scripts/ci_scope.py; PypiGuard is
-- scripts/pypi_duplicate_guard.py, with the directory, the answers of PyPI, `json.loads`, `str.lower`
-- and `str` of a JSON value as parameters; Changelog is scripts/lint_changelog.py, with
-- `packaging.version` as a parameter, Sections its policy of sections and Pass its pass over the
-- lines; ReviewGate is `evaluate` of scripts/agent_review_gate.py on the records of GitHub, with
-- Records for these, Submitted and Reviews for the two loops over the reviews, and the searches of
-- the compiled patterns as a parameter. Patterns and Lines hold the regular expressions and the
-- methods of `str` that they share.
--
-- Loops: `lex_loop` has the length of its text as fuel, each round takes a character;
-- `read_batches` has fuel that its caller gives, since the driver decides when the rows end, and
-- `execute_query` gives one round more than its limit of rows, which is enough; `grow` has the
-- length of the value, since a fence longer than the value is not in it. `scan` has the length of
-- its text and `digits` one more than its number; `get_body` counts the three attempts down. The
-- other loops are structural.
--
-- Not modelled: the messages of exceptions beyond what decides their wording, logging to stderr,
-- the prompts and guides, the command line, the registration of tools with FastMCP and the JSON of
-- the schema resources. The set-up of the logging handler is not modelled either, nor are the other
-- scripts of the repository and what the modelled ones print. Of the review gate, `fetch` and
-- `diff_fingerprint`, warnings, notes and the order of the errors are left out.
pub mod Audit
pub mod Common
pub mod Config
pub mod Context
pub mod Database
pub mod Safety
pub mod Scripts
pub mod Server
pub mod Tests
pub mod Value
