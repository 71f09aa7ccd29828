-- ===== src/Tools/Prepare/Pairs.antt =====
-- Which flags the tool accepts.
use text.Mathlib.TextLemmas.{nil-append, cons-append}
use mathlib.Core.List.{cons-ne-nil}
use grpc_test_infra.Base.{
  ◌≤◌, String, Bool, true, false, Option, none, some, List, [], ◌∷◌, ◌≡◌, ◌≢◌, ◌↔◌, refl, sym, ap,
  ◌∙◌, subst, ◌==◌, All, Message, Bool-cases, inl, inr, arith, eq_iff, is_some, Option-cases,
}
use grpc_test_infra.Base.Text.{cat}
use grpc_test_infra.Base.Strings.{split, join, byte_length}
use grpc_test_infra.Base.Decimals.{Lacks}
use grpc_test_infra.Base.Splits.{join-split, split-Pieces, split-single, split-append}
use grpc_test_infra.Base.Dict.{Dict}
use grpc_test_infra.Tools.Prepare.{
  Tests, check_tests, pair_of, read_pair, read_pairs, store_pair, Prepared, fatal, makes, make_all,
  prepare_if, prepare, no_language,
}

-- `language:gitref`, with one colon and a git reference.
pub record IsPair (pair : String) : Type 0 where
  pub language : String
  pub gitref : String
  pub written : pair ≡ cat language (cat ":" gitref)
  pub one_colon : Lacks ":" language × Lacks ":" gitref
  pub some_gitref : gitref ≢ ""

pair_of-IsPair :
    (pair : String) (pieces : List String)
    → split ":" pair ≡ pieces
    → is_some (pair_of pieces) ≡ true
    → IsPair pair
unfolding join
pair_of-IsPair pair [] e h = absurd (ground (arith, h))
pair_of-IsPair pair (l ∷ []) e h = absurd (ground (arith, h))
pair_of-IsPair pair (l ∷ r ∷ w ∷ ws) e h = absurd (ground (arith, h))
pair_of-IsPair pair (l ∷ r ∷ []) e h = record {
  language = l;
  gitref = r;
  written = sym (join-split ":" pair) ∙ ap (join ":") e;
  one_colon = let lack = subst (All (Lacks ":")) e (split-Pieces ":" pair) in (lack.0, lack.1.0);
  some_gitref = λ empty. absurd (ground (arith, h, (eq_iff r "").1 empty));
}

colon_first : (s : String) → cat ":" s ≡ String.◌∷◌ ":" s
colon_first s = cons-append ":" "" s ∙ ap (String.◌∷◌ ":") (nil-append s)

pieces_of : (pair : String) (h : IsPair pair) → split ":" pair ≡ h.language ∷ h.gitref ∷ []
pieces_of pair h =
    ap (split ":") (h.written ∙ ap (cat h.language) (colon_first h.gitref))
    ∙ split-append ":" h.language h.gitref h.one_colon.0
    ∙ ap (λ ws. h.language ∷ ws) (split-single ":" h.gitref h.one_colon.1)

IsPair-read : (pair : String) → IsPair pair → is_some (read_pair pair) ≡ true
unfolding read_pair
IsPair-read pair h =
    ap (λ ws. is_some (pair_of ws)) (pieces_of pair h) ∙ (elim (Bool-cases (h.gitref == "")) [
      | inl empty ↦ absurd (h.some_gitref ((eq_iff h.gitref "").0 empty))
      | inr some_text ↦ rw some_text refl
    ])

read-IsPair : (pair : String) → is_some (read_pair pair) ≡ true → IsPair pair
unfolding read_pair
read-IsPair pair h = pair_of-IsPair pair (split ":" pair) refl h

read_pairs-IsPair :
    (pairs : List String) (m : Dict String)
    → (is_some (read_pairs pairs m) ≡ true) ↔ All IsPair pairs
unfolding read_pairs
read_pairs-IsPair [] m = (λ e. tt, λ h. refl)
read_pairs-IsPair (pair ∷ pairs) m = elim (Option-cases (read_pair pair)) [
  | inl e ↦
      rw e (λ h. absurd (ground (arith, h)), λ h. absurd (ground (arith, e, IsPair-read pair h.0)))
  | inr (found, e) ↦ rw e (
    λ h. (read-IsPair pair (ap is_some e), (read_pairs-IsPair pairs (store_pair found m)).0 h),
    λ h. (read_pairs-IsPair pairs (store_pair found m)).1 h.1,
  )
]

-- What is asked of the flags.
pub record AreValid (test : Tests) : Type 0 where
  pub some_prefix : test.pre_built_image_prefix ≢ ""
  pub some_tag : test.test_tag ≢ ""
  pub short_tag : byte_length test.test_tag ≤ 128
  pub some_root : test.dockerfile_root ≢ ""
  pub some_pair : test.languages_selected ≢ []
  pub pairs : All IsPair test.languages_selected

abbrev pub is_made : Prepared → Bool
is_made (makes m) = true
is_made (fatal e) = false

no_language-none : (pairs : List String) → (no_language pairs ≡ none) ↔ (pairs ≢ [])
no_language-none [] = (λ e. absurd (ground (arith, e)), λ h. absurd (h refl))
no_language-none (pair ∷ pairs) = (λ e. cons-ne-nil pair pairs, λ h. refl)

HasFlags : Tests → Type 0
HasFlags test =
    (test.pre_built_image_prefix ≢ "")
    × (test.test_tag ≢ "")
    × (byte_length test.test_tag ≤ 128)
    × (test.dockerfile_root ≢ "")
    × (test.languages_selected ≢ [])

check_tests-HasFlags :
    (test : Tests)
    → (check_tests test ≡ none → HasFlags test) × (HasFlags test → check_tests test ≡ none)
unfolding check_tests HasFlags
check_tests-HasFlags test = (
  λ e. ground (
    arith,
    e,
    eq_iff test.pre_built_image_prefix "",
    eq_iff test.test_tag "",
    eq_iff test.dockerfile_root "",
    no_language-none test.languages_selected,
  ),
  λ h. ground (
    arith,
    h,
    eq_iff test.pre_built_image_prefix "",
    eq_iff test.test_tag "",
    eq_iff test.dockerfile_root "",
    no_language-none test.languages_selected,
  ),
)

made-some : (o : Option (Dict String)) → (is_made (make_all o) ≡ true) ↔ (is_some o ≡ true)
made-some none = (λ e. e, λ e. e)
made-some (some m) = (λ e. e, λ e. e)

prepare_if-made :
    (o : Option Message) (pairs : List String)
    → (is_made (prepare_if o pairs) ≡ true) ↔ ((o ≡ none) × (is_some (read_pairs pairs []) ≡ true))
prepare_if-made none pairs =
    let (to, from) = made-some (read_pairs pairs []) in (λ e. (refl, to e), λ h. from h.1)
prepare_if-made (some m) pairs =
    (λ e. absurd (ground (arith, e)), λ h. absurd (ground (arith, h.0)))

-- The tool goes on to make images exactly if the flags name a registry, a tag of at most 128 bytes, a
-- root directory and at least one language, and each of the pairs is a language and a non-empty git
-- reference with one colon between them.
pub prepare-AreValid : (test : Tests) → (is_made (prepare test) ≡ true) ↔ AreValid test
unfolding prepare HasFlags
prepare-AreValid test =
    let (made, makes_it) = prepare_if-made (check_tests test) test.languages_selected in
    let (checked, checks) = check_tests-HasFlags test in
    let (paired, pairs) = read_pairs-IsPair test.languages_selected [] in
    (
      λ e.
          let (no_error, all_read) = made e in
          let (some_prefix, some_tag, short_tag, some_root, some_pair) = checked no_error in
          record {
            some_prefix = some_prefix;
            some_tag = some_tag;
            short_tag = short_tag;
            some_root = some_root;
            some_pair = some_pair;
            pairs = paired all_read;
          },
      λ h. makes_it (
        checks (h.some_prefix, h.some_tag, h.short_tag, h.some_root, h.some_pair),
        pairs h.pairs,
      ),
    )
