-- ===== src/Scripts/PypiGuard/DistinctFiles.antt =====
-- No file is listed twice in what scripts/pypi_duplicate_guard.py reads.
use cubrid_mcp_server.Common.{
  ℕ, ◌≡◌, refl, ap, not, Bool-cases, inl, inr, Option, none, some, List, [], ◌∷◌, ◌++◌,
}
use cubrid_mcp_server.Common.Text.{Text, text_eq, is_in}
use cubrid_mcp_server.Common.Result.{
  raise_if, Ensures, Ensures-bind, Ensures-ok, Ensures-err, Ensures-raise_if, Ensures-all,
}
use cubrid_mcp_server.Config.Registry.{Named, names}
use cubrid_mcp_server.Config.Registry.Named.{Distinct, Distinct-snoc, names-snoc}
use cubrid_mcp_server.Scripts.ReleaseDetect.{hex_then_end}
use cubrid_mcp_server.Scripts.PypiGuard.Answers.{Json, Jsons, nil_jsons, cons_jsons}
use cubrid_mcp_server.Scripts.PypiGuard.{
  unexpected_entry, no_distribution_files, malformed_digest, listed_twice, other_release,
  DirectoryEntry, Response, replaced, put, prefix_of, is_distribution, read_entries, no_entries,
  local_files, get_body, payload, describes, file_of, add_file, add_files, read_answer,
  published_files,
}

is_in-replaced :
    (name value : Text) (files : Named Text) → names (replaced name value files) ≡ names files
unfolding names
is_in-replaced name value [] = refl
is_in-replaced name value (x ∷ xs) = elim (Bool-cases (text_eq name x.0)) [
  | inl same ↦ rw same refl
  | inr other ↦ rw other (ap (◌∷◌ x.0) (is_in-replaced name value xs))
]

put-Distinct :
    (name value : Text) (files : Named Text)
    → Distinct (names files)
    → Distinct (names (put name value files))
unfolding put
put-Distinct name value files h = elim (Bool-cases (is_in name (names files))) [
  | inl known ↦ rw (known, is_in-replaced name value files) h
  | inr new ↦ rw (new, names-snoc files name value) (Distinct-snoc (names files) name h new)
]

module _ (lower : Text → Text) (text_of : Json → Text) (fetch : ℕ → Response)
    (loads : Text → Option Json) where
  abbrev pub AreDistinct : Named Text → Type 0
  AreDistinct files = Distinct (names files)

  read_entries-Ensures :
      (prefix : Text) (entries : List DirectoryEntry) (files : Named Text)
      → AreDistinct files
      → Ensures AreDistinct (read_entries lower text_of prefix entries files)
  unfolding read_entries
  read_entries-Ensures prefix [] files h = Ensures-ok AreDistinct files h
  read_entries-Ensures prefix (entry ∷ entries) files h =
      Ensures-bind (λ t. Unit {0}) AreDistinct
        (raise_if (not (is_distribution lower text_of prefix entry)) (unexpected_entry entry.name))
        _ (Ensures-all _)
        (λ _ t.
          read_entries-Ensures prefix entries (put entry.name entry.sha256 files)
            (put-Distinct entry.name entry.sha256 files h))

  pub local_files-Ensures :
      (dist : Option (List DirectoryEntry)) (project version : Text)
      → Ensures AreDistinct (local_files lower text_of dist project version)
  unfolding local_files
  local_files-Ensures none project version = Ensures-err AreDistinct _
  local_files-Ensures (some entries) project version =
      Ensures-bind AreDistinct AreDistinct
        (read_entries lower text_of (prefix_of lower text_of project version) entries []) _
        (read_entries-Ensures (prefix_of lower text_of project version) entries []
          (unfold names in tt))
        (λ files h.
          Ensures-bind (λ t. Unit {0}) AreDistinct
            (raise_if (no_entries lower text_of files) no_distribution_files) _ (Ensures-all _)
            (λ _ t. Ensures-ok AreDistinct files h))

  add_file-Ensures :
      (files : Named Text) (o : Option (Text × Text))
      → AreDistinct files
      → Ensures AreDistinct (add_file lower text_of fetch loads files o)
  unfolding add_file
  add_file-Ensures files none h = Ensures-err AreDistinct _
  add_file-Ensures files (some (filename, sha256)) h =
      Ensures-bind (λ t. Unit {0}) AreDistinct
        (raise_if (not (hex_then_end 64 sha256)) (malformed_digest filename)) _ (Ensures-all _)
        (λ _ t.
          Ensures-bind _ AreDistinct
            (raise_if (is_in filename (names files)) (listed_twice filename)) _
            (Ensures-raise_if _ _)
            (λ _ new.
              Ensures-ok AreDistinct (files ++ (filename, sha256) ∷ []) (
                rw (names-snoc files filename sha256)
                  (Distinct-snoc (names files) filename h new))))

  add_files-Ensures :
      (entries : Jsons) (files : Named Text)
      → AreDistinct files
      → Ensures AreDistinct (add_files lower text_of fetch loads entries files)
  unfolding add_files
  add_files-Ensures nil_jsons files h = Ensures-ok AreDistinct files h
  add_files-Ensures (cons_jsons entry entries) files h =
      Ensures-bind AreDistinct AreDistinct
        (add_file lower text_of fetch loads files (file_of lower text_of fetch loads entry)) _
        (add_file-Ensures files (file_of lower text_of fetch loads entry) h)
        (λ more k. add_files-Ensures entries more k)

  read_answer-Ensures :
      (project version : Text) (body : Option Text)
      → Ensures AreDistinct (read_answer lower text_of fetch loads project version body)
  unfolding read_answer
  read_answer-Ensures project version none = Ensures-ok AreDistinct [] (unfold names in tt)
  read_answer-Ensures project version (some body) =
      Ensures-bind (λ t. Unit {0}) AreDistinct (payload lower text_of fetch loads (loads body)) _
        (Ensures-all _)
        (λ parts t.
          Ensures-bind (λ t. Unit {0}) AreDistinct
            (raise_if (not (describes lower text_of fetch loads project version parts.0))
              other_release)
            _ (Ensures-all _) (λ _ t'. add_files-Ensures parts.1 [] (unfold names in tt)))

  pub published_files-Ensures :
      (project version : Text)
      → Ensures AreDistinct (published_files lower text_of fetch loads project version)
  unfolding published_files
  published_files-Ensures project version =
      Ensures-bind (λ t. Unit {0}) AreDistinct (get_body lower text_of fetch loads 3 1 []) _
        (Ensures-all _) (λ body t. read_answer-Ensures project version body)
