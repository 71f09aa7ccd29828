-- ===== src/Runner/Configs/Documents.antt =====
-- What decodeFromFile reads: the documents of a file, up to its first empty one.
use grpc_test_infra.Base.{
  ℕ, zero, suc, ◌<◌, ◌+◌, ◌≤◌, String, List, [], ◌∷◌, ◌≡◌, ◌≢◌, ◌⊎◌, inl, inr, refl, sym, ap, ◌∙◌,
  Result, ok, err, ◌==◌, if◌then◌else◌, length, arith, Bool-cases, plain, fill_text, fill_error,
}
use grpc_test_infra.Base.Strings.{join}
use grpc_test_infra.Api.{LoadTest}
use grpc_test_infra.Runner.Configs.{
  separator, next_part, decoded, decode_part, add_next, decode_rounds, decode_from_file,
  decode_lines,
}

-- A line before the first document of a list.
abbrev pub to_first : String → List (List String) → List (List String)
to_first line [] = (line ∷ []) ∷ []
to_first line (d ∷ ds) = (line ∷ d) ∷ ds

-- All documents of a file: the lines between the separators.
unfoldable pub documents : List String → List (List String)
documents [] = [] ∷ []
documents (line ∷ lines) =
    let rest = documents lines in if line == separator then [] ∷ rest else to_first line rest

abbrev pub before : LoadTest → Result (List LoadTest) → Result (List LoadTest)
before config (err e) = err e
before config (ok configs) = ok (config ∷ configs)

-- A document that YAML cannot read is an error that names the file, and nothing behind it counts.
abbrev pub read_one : String → Result LoadTest → Result (List LoadTest) → Result (List LoadTest)
read_one name (err e) later =
    err (fill_error (fill_text (plain "error decoding config from %q: %v") name) e)
read_one name (ok config) later = before config later

-- The documents are read in order; an empty one ends the file.
unfoldable pub read_documents :
    (String → Result LoadTest) → String → List (List String) → Result (List LoadTest)
read_documents unmarshal name [] = ok []
read_documents unmarshal name ([] ∷ ds) = ok []
read_documents unmarshal name ((line ∷ lines) ∷ ds) =
    read_one name (unmarshal (join "\n" (line ∷ lines))) (read_documents unmarshal name ds)

add_next-eq :
    (name : String) (read : Result LoadTest) (later : Result (List LoadTest))
    → read_one name read later ≡ add_next name (decoded read) later
unfolding add_next
add_next-eq name (err e) later = refl
add_next-eq name (ok config) (err e) = refl
add_next-eq name (ok config) (ok configs) = refl

module _ (unmarshal : String → Result LoadTest) (name : String) where
  Starts : List String → Type 0
  Starts lines =
      (documents lines ≡ (next_part lines).0 ∷ documents (next_part lines).1)
      ⊎ ((documents lines ≡ (next_part lines).0 ∷ []) × ((next_part lines).1 ≡ []))

  next_part-Starts : (lines : List String) → Starts lines
  unfolding documents next_part Starts
  next_part-Starts [] = inr (refl, refl)
  next_part-Starts (line ∷ lines) = elim (Bool-cases (line == separator)) [
    | inl e ↦ rw e (inl refl)
    | inr e ↦ rw e (elim (next_part-Starts lines) [
      | inl h ↦ inl (ap (to_first line) h)
      | inr h ↦ inr (ap (to_first line) h.0, h.1)
    ])
  ]

  read_documents-step :
      (d : List String) (ds : List (List String))
      → read_documents unmarshal name (d ∷ ds)
        ≡ add_next name (decode_part unmarshal d) (read_documents unmarshal name ds)
  unfolding read_documents decode_part
  read_documents-step [] ds = unfold add_next in refl
  read_documents-step (line ∷ lines) ds = add_next-eq name _ _

  read_next :
      (lines : List String)
      → read_documents unmarshal name (documents lines)
        ≡ add_next name
            (decode_part unmarshal (next_part lines).0)
            (read_documents unmarshal name (documents (next_part lines).1))
  unfolding Starts documents
  read_next lines = elim (next_part-Starts lines) [
    | inl h ↦ rw h (read_documents-step _ _)
    | inr h ↦
        rw h.0 (rw h.1 (read_documents-step (next_part lines).0 [] ∙ unfold read_documents in refl))
  ]

  next_part_shrinks :
      (lines : List String) → length (next_part lines).0 + length (next_part lines).1 ≤ length lines
  unfolding next_part
  next_part_shrinks [] = omega arith
  next_part_shrinks (line ∷ lines) = elim (Bool-cases (line == separator)) [
    | inl e ↦ rw e (omega arith)
    | inr e ↦ rw e (omega (arith, next_part_shrinks lines))
  ]

  add_rest :
      (part : List String) (r s : Result (List LoadTest))
      → (part ≢ [] → r ≡ s)
      → add_next name (decode_part unmarshal part) r ≡ add_next name (decode_part unmarshal part) s
  unfolding decode_part add_next
  add_rest [] r s same = refl
  add_rest (line ∷ lines) r s same = ap (add_next name _) (same (cc))

  nonempty : (part : List String) → part ≢ [] → 0 < length part
  nonempty [] h = absurd (h refl)
  nonempty (line ∷ lines) h = omega arith

  -- A file is read as the list of its documents, up to the first empty one, and the number of rounds
  -- allowed, one more than the file has lines, is enough.
  pub decode_rounds-documents :
      (fuel : ℕ) (lines : List String)
      → length lines < fuel
      → decode_rounds unmarshal name fuel lines ≡ read_documents unmarshal name (documents lines)
  unfolding decode_rounds
  decode_rounds-documents zero lines h = absurd (omega arith)
  decode_rounds-documents (suc fuel) lines h =
      add_rest (next_part lines).0 _ _ (λ some_lines.
        decode_rounds-documents fuel (next_part lines).1
          (omega (arith, next_part_shrinks lines, nonempty (next_part lines).0 some_lines)))
      ∙ sym (read_next lines)

abbrev pub read_lines :
    (String → Result LoadTest) → String → Result (List String) → Result (List LoadTest)
read_lines unmarshal name (err e) = err e
read_lines unmarshal name (ok lines) = read_documents unmarshal name (documents lines)

scanned :
    (unmarshal : String → Result LoadTest) (name : String) (found : Result (List String))
    → decode_lines unmarshal name found ≡ read_lines unmarshal name found
scanned unmarshal name (err e) = refl
scanned unmarshal name (ok lines) =
    decode_rounds-documents unmarshal name (suc (length lines)) lines (omega arith)

-- A file that can be opened is read as its documents, the lines between the separators, in their
-- order and up to the first empty one; the first document that is no test makes the whole an error.
pub decode_from_file-documents :
    (unmarshal : String → Result LoadTest) (scan : String → Result (List String)) (name : String)
    → decode_from_file unmarshal scan name ≡ read_lines unmarshal name (scan name)
unfolding decode_from_file
decode_from_file-documents unmarshal scan name = scanned unmarshal name (scan name)
