-- ===== src/Tools/Delete/Deletes.antt =====
-- Which images are deleted, and which lose only their tag.
use grpc_test_infra.Base.{
  ℕ, ◌≤◌, ◌<◌, String, List, [], ◌∷◌, ◌≡◌, refl, ap, subst, ◌==◌, ltb, Outcome, returns, panics,
  >>=-eq-returns, returns-injective, Bool-cases, inl, inr, arith,
}
use grpc_test_infra.Tools.Delete.{
  Command, list_images, list_tags, untag, delete_image, Gcloud, Tags, absent, unreadable, tagged,
  repositories_of, tags_of, image_name, remove, process, process_all, delete_prebuilt, Exit, ends,
  fatal,
}

module _ (gcloud : Gcloud) (tag : String) where
  -- The command before it has listed the image under the tag, with so many tags.
  pub record IsListed (image : String) (before : List Command) (n : ℕ) : Type 0 where
    pub repository : String
    pub earlier : List Command
    pub named : image ≡ image_name repository tag
    pub asked : before ≡ list_tags repository tag ∷ earlier
    pub answer : tags_of (gcloud earlier (list_tags repository tag)) ≡ tagged n

  -- An image is deleted only if it was just listed with no other tag, and untagged only if it was
  -- just listed with several.
  abbrev pub AreJustified : List Command → Type 0
  AreJustified [] = Unit
  AreJustified (delete_image image ∷ before) =
      ((n : ℕ) × IsListed image before n × (n ≤ 1)) × AreJustified before
  AreJustified (untag image ∷ before) =
      ((n : ℕ) × IsListed image before n × (1 < n)) × AreJustified before
  AreJustified (_ ∷ before) = AreJustified before

  remove-AreJustified :
      (repository : String) (found : Tags) (earlier after : List Command)
      → tags_of (gcloud earlier (list_tags repository tag)) ≡ found
      → AreJustified earlier
      → remove (image_name repository tag) found (list_tags repository tag ∷ earlier)
        ≡ returns after
      → AreJustified after
  remove-AreJustified repository absent earlier after e h r =
      subst AreJustified (returns-injective r) h
  remove-AreJustified repository unreadable earlier after e h r = cc
  remove-AreJustified repository (tagged n) earlier after e h r =
      subst AreJustified (returns-injective r) (elim (Bool-cases (ltb 1 n)) [
        | inl several ↦ rw several ((n, listed, ground (arith, several)), h)
        | inr single ↦ rw single ((n, listed, ground (arith, single)), h)
      ])
    where
      listed : IsListed (image_name repository tag) (list_tags repository tag ∷ earlier) n
      listed = record {
        repository = repository;
        earlier = earlier;
        named = refl;
        asked = refl;
        answer = e;
      }

  process-AreJustified :
      (repository : String) (before after : List Command)
      → AreJustified before
      → process gcloud tag repository before ≡ returns after
      → AreJustified after
  unfolding process
  process-AreJustified repository before after h r = elim (Bool-cases (repository == "")) [
    | inl empty ↦
        subst AreJustified (returns-injective {a = before} {b = after} (ground (arith, empty, r))) h
    | inr other ↦ remove-AreJustified repository _ before after refl h (ground (arith, other, r))
  ]

  pub process_all-AreJustified :
      (repositories : List String) (before after : List Command)
      → AreJustified before
      → process_all gcloud tag repositories before ≡ returns after
      → AreJustified after
  unfolding process_all
  process_all-AreJustified [] before after h r = subst AreJustified (returns-injective r) h
  process_all-AreJustified (repository ∷ repositories) before after h r =
      let (between, first, rest) =
        >>=-eq-returns (process gcloud tag repository before) (process_all gcloud tag repositories)
          r in
      process_all-AreJustified repositories between after
        (process-AreJustified repository before between h first) rest

ended : Exit → Outcome (List Command)
ended (fatal e) = panics
ended (ends o) = o

ends-injective : {o p : Outcome (List Command)} → ends o ≡ ends p → o ≡ p
unfolding ended
ends-injective h = ap ended h

-- A run that has come to its end has gone through the repositories.
pub delete_prebuilt-process_all :
    (gcloud : Gcloud) (prefix tag : String) (commands : List Command)
    → delete_prebuilt gcloud prefix tag ≡ ends (returns commands)
    → process_all gcloud tag (repositories_of gcloud prefix) (list_images prefix ∷ [])
      ≡ returns commands
unfolding delete_prebuilt
delete_prebuilt-process_all gcloud prefix tag commands e = elim (Bool-cases (prefix == "")) [
  | inl none ↦ absurd (ground (arith, none, e))
  | inr some_prefix ↦ elim (Bool-cases (tag == "")) [
    | inl none ↦ absurd (ground (arith, some_prefix, none, e))
    | inr some_tag ↦ ends-injective (ground (arith, some_prefix, some_tag, e))
  ]
]
