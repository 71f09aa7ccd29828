-- ===== src/Tools/Delete.antt =====
-- tools/delete_prebuilt_workers/delete_prebuilt_workers.go: main, over the commands that it runs. What
-- a command prints may depend on all the commands before it, the latest of which comes first; its
-- error is only logged.
pub mod Deletes
pub mod Handles
use grpc_test_infra.Base.{
  ℕ, String, List, [], ◌∷◌, Message, plain, ◌==◌, if◌then◌else◌, ltb, leb, length, Outcome, returns,
  panics, ◌>>=◌,
}
use grpc_test_infra.Base.Text.{cat}
use grpc_test_infra.Base.Strings.{split, fields}

-- The arguments of `gcloud` behind `container images`.
pub data Command : Type 0 where
  list_images : String → Command
  list_tags : String → String → Command
  untag : String → Command
  delete_image : String → Command

-- The combined output of a command, after the commands before it.
abbrev pub Gcloud : Type 0
Gcloud = List Command → Command → String

-- What the listing of an image says: the tag is not there, the line has no second field, at which the
-- code panics, or the number of the image's tags.
pub data Tags : Type 0 where
  absent : Tags
  unreadable : Tags
  tagged : ℕ → Tags

abbrev pub tags_of_fields : List String → Tags
tags_of_fields [] = unreadable
tags_of_fields (digest ∷ []) = unreadable
tags_of_fields (digest ∷ tags ∷ _) = tagged (length (split "," tags))

abbrev pub tags_of_lines : List String → Tags
tags_of_lines [] = absent
tags_of_lines (heading ∷ []) = absent
tags_of_lines (heading ∷ image ∷ []) = absent
tags_of_lines (heading ∷ image ∷ _ ∷ _) = tags_of_fields (fields image)

unfoldable pub tags_of : String → Tags
unfolding split fields
tags_of output = tags_of_lines (split "\n" output)

abbrev pub image_name : String → String → String
image_name repository tag = cat repository (cat ":" tag)

abbrev pub remove : String → Tags → List Command → Outcome (List Command)
remove image absent before = returns before
remove image unreadable before = panics
remove image (tagged n) before =
    returns (if ltb 1 n then untag image ∷ before else delete_image image ∷ before)

-- The body of the loop.
unfoldable pub process : Gcloud → String → String → List Command → Outcome (List Command)
unfolding tags_of
process gcloud tag repository before =
    let asked = list_tags repository tag in
    if repository == ""
    then returns before
    else remove (image_name repository tag) (tags_of (gcloud before asked)) (asked ∷ before)

unfoldable pub process_all : Gcloud → String → List String → List Command → Outcome (List Command)
unfolding process
process_all gcloud tag [] before = returns before
process_all gcloud tag (repository ∷ repositories) before =
    process gcloud tag repository before >>= process_all gcloud tag repositories

-- The first line is a heading.
abbrev pub after_heading : List String → List String
after_heading [] = []
after_heading (heading ∷ lines) = lines

-- The repositories below a registry.
unfoldable pub repositories_of : Gcloud → String → List String
unfolding split
repositories_of gcloud prefix = after_heading (split "\n" (gcloud [] (list_images prefix)))

pub data Exit : Type 0 where
  fatal : Message → Exit
  ends : Outcome (List Command) → Exit

unfoldable pub delete_prebuilt : Gcloud → String → String → Exit
unfolding process_all repositories_of
delete_prebuilt gcloud prefix tag =
    if prefix == ""
    then fatal (plain "no root repository is provided")
    else if tag == ""
    then fatal (plain "no image tag is provided")
    else ends (process_all gcloud tag (repositories_of gcloud prefix) (list_images prefix ∷ []))
