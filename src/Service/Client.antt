-- ===== src/Service/Client.antt =====
-- Calls of the Docker client. The client is not of this repository: `Daemon` says what it answers
-- after each history of calls, an error included, and everything proved holds for every answer.
use docke_compose_customize.Prelude.{String, Option, none, some, List, [], ◌∷◌, ◌++◌}
use docke_compose_customize.Result.{Error, Result, ok, err}
use docke_compose_customize.Container.{Container}

pub data Call : Type 0 where
  create_container : String → Call
  inspect_container start stop remove attach : String → Call
  -- of a service
  list_containers : String → Call
  rename connect disconnect pull : String → String → Call
  inspect_image build remove_image : String → Call
  inspect_volume create_volume remove_volume : String → Call
  inspect_network create_network remove_network : String → Call

pub record Daemon : Type 0 where
  -- the error that the last call of the history raises
  pub fails : List Call → Option Error
  -- the image that the last call has built, as its output names it
  pub built : List Call → Option String
  -- the driver that the last call, an inspection of a volume, has found
  pub driver : List Call → String
  -- the container that the last call has created
  pub created : List Call → Container

-- A method: the calls made so far, and what it returns or raises.
abbrev pub M : Type 0 → Type 0
M A = List Call → Result A × List Call

abbrev pub pure {ℓ} : {A : Type ℓ} → A → List Call → Result A × List Call
pure a log = (ok a, log)

abbrev pub raise {ℓ} : {A : Type ℓ} → Error → List Call → Result A × List Call
raise e log = (err e, log)

abbrev pub continue : {A B : Type 0} → Result A → (A → M B) → M B
continue (ok a) f = f a
continue (err e) f = raise e

infixl 5 ◌>>=◌ ◌>>◌
abbrev pub ◌>>=◌ : {A B : Type 0} → M A → (A → M B) → M B
m >>= f = λ log. let (r, log') = m log in continue r f log'

abbrev pub ◌>>◌ : {A B : Type 0} → M A → M B → M B
m >> k = m >>= λ _. k

-- `for x in xs: m(x)`
abbrev pub for_each : {A : Type 0} → (A → M (Unit {0})) → List A → M (Unit {0})
for_each f [] = pure tt
for_each f (x ∷ xs) = f x >> for_each f xs

module _ (daemon : Daemon) where
  abbrev pub answered : Option Error → List Call → Result (Unit {0}) × List Call
  answered none log = (ok tt, log)
  answered (some e) log = (err e, log)

  unfoldable pub call : Call → M (Unit {0})
  call c log = let log' = log ++ c ∷ [] in answered (daemon.fails log') log'
