-- ===== src/Base/Splits.antt =====
-- `strings.Split` and `strings.Join` are inverse to each other on pieces that lack the separator.
use Prim.Native.Char.{Char}
use Prim.Native.String.{String, ◌++◌}
use mathlib.Core.Path.{◌≡◌, refl, ◌∙◌, ap, sym, subst}
use mathlib.Core.Bool.{true, false}
use mathlib.Core.Logic.{◌≢◌, inl, inr}
use mathlib.Core.List.{List, [], ◌∷◌, cons-ne-nil}
use native.Mathlib.Omega.{arith}
use text.Mathlib.TextLemmas.{nil-append, cons-append}
use text.Mathlib.TextEquality.{Char-path}
use grpc_test_infra.Base.Tests.{Bool-cases}
use grpc_test_infra.Base.Lists.{All}
use grpc_test_infra.Base.Strings.{is_char, onto_first, split, join}
use grpc_test_infra.Base.Decimals.{Lacks}

module _ (sep : Char) where
  abbrev Pieces : List String → Type 0
  Pieces = All (Lacks sep)

  split_at :
      (c : Char) (s : String) → is_char c sep ≡ true → split sep (String.◌∷◌ c s) ≡ "" ∷ split sep s
  unfolding split
  split_at c s e = rw e refl

  split_within :
      (c : Char) (s : String)
      → is_char c sep ≡ false
      → split sep (String.◌∷◌ c s) ≡ onto_first c (split sep s)
  unfolding split
  split_within c s e = rw e refl

  split-nil : split sep "" ≡ "" ∷ []
  unfolding split
  split-nil = refl

  onto_first-ne-nil : (c : Char) (ws : List String) → onto_first c ws ≢ []
  onto_first-ne-nil c [] = cons-ne-nil _ _
  onto_first-ne-nil c (w ∷ ws) = cons-ne-nil _ _

  split-ne-nil : (s : String) → split sep s ≢ []
  split-ne-nil String.[] = λ e. absurd (ground (arith, split-nil, e))
  split-ne-nil (String.◌∷◌ c s) = elim (Bool-cases (is_char c sep)) [
    | inl e ↦ rw (split_at c s e) (cons-ne-nil _ _)
    | inr e ↦ rw (split_within c s e) (onto_first-ne-nil c (split sep s))
  ]

  join-onto_first :
      (c : Char) (ws : List String)
      → ws ≢ []
      → join (String.◌∷◌ sep "") (onto_first c ws) ≡ String.◌∷◌ c (join (String.◌∷◌ sep "") ws)
  unfolding join
  join-onto_first c [] h = absurd (h refl)
  join-onto_first c (w ∷ []) h = refl
  join-onto_first c (w ∷ v ∷ ws) h = cons-append c w _

  join-cons_empty :
      (ws : List String)
      → ws ≢ []
      → join (String.◌∷◌ sep "") ("" ∷ ws) ≡ String.◌∷◌ sep (join (String.◌∷◌ sep "") ws)
  unfolding join
  join-cons_empty [] h = absurd (h refl)
  join-cons_empty (w ∷ ws) h =
      nil-append _ ∙ cons-append sep "" _ ∙ ap (String.◌∷◌ sep) (nil-append _)

  pub join-split : (s : String) → join (String.◌∷◌ sep "") (split sep s) ≡ s
  unfolding join
  join-split String.[] = rw split-nil refl
  join-split (String.◌∷◌ c s) = elim (Bool-cases (is_char c sep)) [
    | inl e ↦ rw (split_at c s e) (
        join-cons_empty (split sep s) (split-ne-nil s)
        ∙ ap (String.◌∷◌ sep) (join-split s)
        ∙ ap (λ d. String.◌∷◌ d s) (Char-path sep c (ground (arith, e))))
    | inr e ↦
        rw (split_within c s e)
          (join-onto_first c (split sep s) (split-ne-nil s) ∙ ap (String.◌∷◌ c) (join-split s))
  ]

  onto_first-Pieces :
      (c : Char) (ws : List String) → is_char c sep ≡ false → Pieces ws → Pieces (onto_first c ws)
  onto_first-Pieces c [] e h = ((e, tt), tt)
  onto_first-Pieces c (w ∷ ws) e h = ((e, h.0), h.1)

  pub split-Pieces : (s : String) → Pieces (split sep s)
  split-Pieces String.[] = rw split-nil (tt, tt)
  split-Pieces (String.◌∷◌ c s) = elim (Bool-cases (is_char c sep)) [
    | inl e ↦ rw (split_at c s e) (tt, split-Pieces s)
    | inr e ↦ rw (split_within c s e) (onto_first-Pieces c (split sep s) e (split-Pieces s))
  ]

  pub split-single : (s : String) → Lacks sep s → split sep s ≡ s ∷ []
  split-single String.[] h = split-nil
  split-single (String.◌∷◌ c s) h =
      rw (split_within c s h.0) (ap (onto_first c) (split-single s h.1))

  is_char_self : is_char sep sep ≡ true
  is_char_self = ground arith

  pub split-append :
      (s t : String) → Lacks sep s → split sep (s ++ String.◌∷◌ sep t) ≡ s ∷ split sep t
  split-append String.[] t h = rw (nil-append (String.◌∷◌ sep t)) (split_at sep t is_char_self)
  split-append (String.◌∷◌ c s) t h =
      rw (cons-append c s (String.◌∷◌ sep t))
        (rw (split_within c (s ++ String.◌∷◌ sep t) h.0) (ap (onto_first c) (split-append s t h.1)))

  pub split-join :
      (w : String) (ws : List String)
      → All (Lacks sep) (w ∷ ws)
      → split sep (join (String.◌∷◌ sep "") (w ∷ ws)) ≡ w ∷ ws
  unfolding join
  split-join w [] h = split-single w h.0
  split-join w (v ∷ ws) h =
      ap (λ s. split sep (w ++ s)) (cons-append sep "" _ ∙ ap (String.◌∷◌ sep) (nil-append _))
      ∙ split-append w _ h.0
      ∙ ap (λ l. w ∷ l) (split-join v ws h.1)

pub append-Lacks : (sep : Char) (s t : String) → Lacks sep s → Lacks sep t → Lacks sep (s ++ t)
append-Lacks sep String.[] t h k = subst (Lacks sep) (sym (nil-append t)) k
append-Lacks sep (String.◌∷◌ c s) t h k =
    subst (Lacks sep) (sym (cons-append c s t)) (h.0, append-Lacks sep s t h.1 k)
