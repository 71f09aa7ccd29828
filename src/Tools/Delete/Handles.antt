-- ===== src/Tools/Delete/Handles.antt =====
-- Every repository that is listed is handled.
use mathlib.Core.List.{append_assoc}
use grpc_test_infra.Base.{
  String, false, List, [], ◌∷◌, ◌++◌, ◌≡◌, ◌≢◌, refl, sym, ap, ◌∙◌, ◌==◌, if◌then◌else◌, ltb,
  returns, >>=-eq-returns, returns-injective, Bool-cases, inl, inr, arith, not, keep, All,
}
use grpc_test_infra.Tools.Delete.{
  Command, list_images, list_tags, untag, delete_image, Gcloud, Tags, absent, unreadable, tagged,
  repositories_of, tags_of, image_name, remove, process, process_all, delete_prebuilt, ends,
}
use grpc_test_infra.Tools.Delete.Deletes.{
  AreJustified, process_all-AreJustified, delete_prebuilt-process_all,
}

-- The commands after the image has been handled: an image of one tag is deleted, one of several tags
-- loses the tag.
abbrev pub handled : String → Tags → List Command → List Command
handled image (tagged n) before = (if ltb 1 n then untag image else delete_image image) ∷ before
handled image _ before = before

remove-handled :
    (image : String) (found : Tags) (before after : List Command)
    → remove image found before ≡ returns after
    → (after ≡ handled image found before) × (found ≢ unreadable)
remove-handled image absent before after h = (sym (returns-injective h), λ e. cc)
remove-handled image unreadable before after h = cc
remove-handled image (tagged n) before after h = elim (Bool-cases (ltb 1 n)) [
  | inl e ↦ (sym (returns-injective h) ∙ rw e refl, λ e. cc)
  | inr e ↦ (sym (returns-injective h) ∙ rw e refl, λ e. cc)
]

module _ (gcloud : Gcloud) (tag : String) where
  -- The repository was asked for the tag, and its image was handled next by the answer.
  pub record IsHandled (commands : List Command) (repository : String) : Type 0 where
    pub earlier : List Command
    pub later : List Command
    pub in_order :
        commands
        ≡ later
          ++ handled
              (image_name repository tag)
              (tags_of (gcloud earlier (list_tags repository tag)))
              (list_tags repository tag ∷ earlier)
    pub readable : tags_of (gcloud earlier (list_tags repository tag)) ≢ unreadable

  abbrev Grows : List Command → List Command → Type 0
  Grows before after = (new : List Command) × (after ≡ new ++ before)

  later-IsHandled :
      (between after : List Command) (repository : String)
      → Grows between after
      → IsHandled between repository
      → IsHandled after repository
  later-IsHandled between after repository (new, e) h = record {
    earlier = h.earlier;
    later = new ++ h.later;
    in_order = e ∙ ap (λ l. new ++ l) h.in_order ∙ sym (append_assoc new h.later _);
    readable = h.readable;
  }

  handled-Grows :
      (image : String) (found : Tags) (asked : Command) (before : List Command)
      → Grows before (handled image found (asked ∷ before))
  handled-Grows image absent asked before = (asked ∷ [], refl)
  handled-Grows image unreadable asked before = (asked ∷ [], refl)
  handled-Grows image (tagged n) asked before = (_ ∷ asked ∷ [], refl)

  process-IsHandled :
      (repository : String) (before after : List Command)
      → (repository == "") ≡ false
      → process gcloud tag repository before ≡ returns after
      → IsHandled after repository
  unfolding process
  process-IsHandled repository before after other h =
      let (e, readable) =
        remove-handled (image_name repository tag)
          (tags_of (gcloud before (list_tags repository tag))) (list_tags repository tag ∷ before)
          after (ground (arith, other, h)) in
      record { earlier = before; later = []; in_order = e; readable = readable }

  process-Grows :
      (repository : String) (before after : List Command)
      → process gcloud tag repository before ≡ returns after
      → Grows before after
  unfolding process
  process-Grows repository before after h = elim (Bool-cases (repository == "")) [
    | inl empty ↦ ([], sym (returns-injective {a = before} {b = after} (ground (arith, empty, h))))
    | inr other ↦
        let asked : Command = list_tags repository tag in
        let (e, _) =
          remove-handled (image_name repository tag) (tags_of (gcloud before asked))
            (asked ∷ before) after (ground (arith, other, h)) in
        let (new, e') =
          handled-Grows (image_name repository tag) (tags_of (gcloud before asked)) asked before in
        (new, e ∙ e')
  ]

  abbrev AreHandled : List String → List Command → Type 0
  AreHandled repositories commands =
      All (IsHandled commands) (keep (λ r. not (r == "")) repositories)

  process_all-AreHandled :
      (repositories : List String) (before after : List Command)
      → process_all gcloud tag repositories before ≡ returns after
      → AreHandled repositories after × Grows before after
  unfolding process_all
  process_all-AreHandled [] before after h = (tt, ([], sym (returns-injective h)))
  process_all-AreHandled (repository ∷ repositories) before after h =
      let (between, first, rest) =
        >>=-eq-returns (process gcloud tag repository before) (process_all gcloud tag repositories)
          h in
      let (others, (new, e)) = process_all-AreHandled repositories between after rest in
      let (first_new, e') = process-Grows repository before between first in
      (
        elim (Bool-cases (repository == "")) [
          | inl empty ↦ rw empty others
          | inr other ↦ rw other (
            later-IsHandled between after repository (new, e)
                (process-IsHandled repository before between other first),
            others,
          )
        ],
        (new ++ first_new, e ∙ ap (λ l. new ++ l) e' ∙ sym (append_assoc new first_new before)),
      )

-- When the tool has come to its end, every repository of the listing was asked for the tag, and then
-- its image was deleted if it had one tag and untagged if it had several; and no image was deleted or
-- untagged otherwise.
pub delete_prebuilt-IsHandled :
    (gcloud : Gcloud) (prefix tag : String) (commands : List Command)
    → delete_prebuilt gcloud prefix tag ≡ ends (returns commands)
    → All
        (IsHandled gcloud tag commands)
        (keep (λ r. not (r == "")) (repositories_of gcloud prefix))
      × AreJustified gcloud tag commands
delete_prebuilt-IsHandled gcloud prefix tag commands e =
    let run = delete_prebuilt-process_all gcloud prefix tag commands e in
    (
      (process_all-AreHandled gcloud tag (repositories_of gcloud prefix) (list_images prefix ∷ [])
          commands run).0,
      process_all-AreJustified gcloud tag (repositories_of gcloud prefix) (list_images prefix ∷ [])
          commands tt run,
    )
