-- ===== src/Runner/Configs/RoundTrip.antt =====
-- Files of tests that are written and read back, and what an empty document does.
use grpc_test_infra.Base.{
  String, false, List, [], ◌∷◌, ◌++◌, map, ◌≡◌, ◌≢◌, refl, ap, ◌∙◌, Result, ok, ◌==◌, All,
}
use grpc_test_infra.Base.Strings.{join}
use grpc_test_infra.Api.{LoadTest}
use grpc_test_infra.Runner.Configs.{separator, decode_from_file}
use grpc_test_infra.Runner.Configs.Documents.{
  documents, before, read_documents, read_lines, to_first, decode_from_file-documents,
}

abbrev pub NotSeparator : String → Type 0
NotSeparator line = (line == separator) ≡ false

-- The document of a test: lines that are not empty, none of them a separator, and that YAML reads as
-- the test.
pub record IsDocument (unmarshal : String → Result LoadTest) (config : LoadTest) (d : List String)
    : Type 0 where
  pub some_line : d ≢ []
  pub no_separator : All NotSeparator d
  pub meaning : unmarshal (join "\n" d) ≡ ok config

-- Each document with a separator behind it, before other lines.
abbrev pub terminated : List (List String) → List String → List String
terminated [] rest = rest
terminated (d ∷ ds) rest = d ++ separator ∷ terminated ds rest

-- The documents with separators between them.
abbrev pub separated : List (List String) → List String
separated [] = []
separated (d ∷ []) = d
separated (d ∷ e ∷ ds) = d ++ separator ∷ separated (e ∷ ds)

-- Tests with their documents.
abbrev pub Written : Type 0
Written = List (LoadTest × List String)

abbrev pub configs_of : Written → List LoadTest
configs_of = map (λ w. w.0)

abbrev pub documents_of : Written → List (List String)
documents_of = map (λ w. w.1)

abbrev pub AreDocuments : (String → Result LoadTest) → Written → Type 0
AreDocuments unmarshal = All (λ w. IsDocument unmarshal w.0 w.1)

documents-append :
    (d rest : List String)
    → All NotSeparator d
    → documents (d ++ separator ∷ rest) ≡ d ∷ documents rest
unfolding documents
documents-append [] rest h = refl
documents-append (line ∷ d) rest h = rw h.0 (ap (to_first line) (documents-append d rest h.1))

documents-single : (d : List String) → All NotSeparator d → documents d ≡ d ∷ []
unfolding documents
documents-single [] h = refl
documents-single (line ∷ d) h = rw h.0 (ap (to_first line) (documents-single d h.1))

module _ (unmarshal : String → Result LoadTest) (name : String) where
  read_first :
      (config : LoadTest) (d : List String) (ds : List (List String))
      → IsDocument unmarshal config d
      → read_documents unmarshal name (d ∷ ds) ≡ before config (read_documents unmarshal name ds)
  unfolding read_documents
  read_first config [] ds h = absurd (h.some_line refl)
  read_first config (line ∷ d) ds h = rw h.meaning refl

  read_separated :
      (w : Written)
      → AreDocuments unmarshal w
      → read_documents unmarshal name (documents (separated (documents_of w))) ≡ ok (configs_of w)
  unfolding read_documents documents
  read_separated [] h = refl
  read_separated ((config, d) ∷ []) h =
      rw (documents-single d h.0.no_separator) (read_first config d [] h.0)
  read_separated ((config, d) ∷ (other, e) ∷ w) h =
      rw (documents-append d (separated (e ∷ documents_of w)) h.0.no_separator)
        (read_first config d _ h.0 ∙ ap (before config) (read_separated ((other, e) ∷ w) h.1))

  read_terminated :
      (w : Written) (rest : List String)
      → AreDocuments unmarshal w
      → read_documents unmarshal name (documents (terminated (documents_of w) (separator ∷ rest)))
        ≡ ok (configs_of w)
  unfolding read_documents documents
  read_terminated [] rest h = refl
  read_terminated ((config, d) ∷ w) rest h =
      rw (documents-append d (terminated (documents_of w) (separator ∷ rest)) h.0.no_separator)
        (read_first config d _ h.0 ∙ ap (before config) (read_terminated w rest h.1))

module _ (unmarshal : String → Result LoadTest) (scan : String → Result (List String))
    (name : String) where
  -- Tests that are written as documents, with a separator between one and the next, are read back,
  -- all of them and in their order.
  pub decode_from_file-separated :
      (w : Written)
      → AreDocuments unmarshal w
      → scan name ≡ ok (separated (documents_of w))
      → decode_from_file unmarshal scan name ≡ ok (configs_of w)
  decode_from_file-separated w h lines =
      decode_from_file-documents unmarshal scan name
      ∙ ap (read_lines unmarshal name) lines
      ∙ read_separated unmarshal name w h

  -- A separator where a document is expected, at the start of a file or behind another separator,
  -- ends the file without an error: the tests before it are returned, and whatever comes after it is
  -- dropped.
  pub decode_from_file-dropped :
      (w : Written) (rest : List String)
      → AreDocuments unmarshal w
      → scan name ≡ ok (terminated (documents_of w) (separator ∷ rest))
      → decode_from_file unmarshal scan name ≡ ok (configs_of w)
  decode_from_file-dropped w rest h lines =
      decode_from_file-documents unmarshal scan name
      ∙ ap (read_lines unmarshal name) lines
      ∙ read_terminated unmarshal name w rest h
