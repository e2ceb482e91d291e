-- ===== src/Config/Environment/Samples.antt =====
-- Variables and files to evaluate the model on.
use docke_compose_customize.Prelude.{String, ◌≡◌, refl, ◌⊎◌, false, true, some, [], ◌∷◌, split_once}
use docke_compose_customize.Result.{err, not_a_file}
use docke_compose_customize.Config.Merge.{split_env}
use docke_compose_customize.Config.Environment.{
  Environment, file, directory, env_vars_from_file, from_env_file, contains, get_item,
}
use docke_compose_customize.Config.Environment.Missing.{Noted, get_item-contains}

abbrev same_text : String → String
same_text s = s

from_file :
    from_env_file same_text
      (some (".env", file ("# A" ∷ "A=1" ∷ "" ∷ "B=2=3" ∷ [])))
      (("A", some "9") ∷ [])
    ≡ ("A", some "9") ∷ ("B", some "2=3") ∷ []
unfolding from_env_file env_vars_from_file split_env split_once
from_file = refl

from_directory : env_vars_from_file same_text "x" directory ≡ err (not_a_file "x")
unfolding env_vars_from_file
from_directory = refl

abbrev one_variable : Environment
one_variable = record { vars = ("A", some "1") ∷ []; missing_keys = [] }

read_missing : (get_item false same_text one_variable "B").1.missing_keys ≡ "B" ∷ []
unfolding get_item
read_missing = refl

get_item-contains_example :
    (contains false same_text one_variable "B" ≡ true)
      × ((get_item false same_text one_variable "B").1 ≡ one_variable)
    ⊎ (contains false same_text one_variable "B" ≡ false)
      × Noted one_variable "B" (get_item false same_text one_variable "B")
get_item-contains_example = get_item-contains false same_text one_variable "B"
