-- ===== src/Service/Scale.antt =====
-- scale: which containers are started, created and stopped, _next_container_number and
-- duplicate_containers. The containers are what the Docker client reports; each has a number.
pub mod Balance
pub mod Laws
pub mod Stopped
use docke_compose_customize.Prelude.{
  ℕ, zero, suc, ◌+◌, ◌-◌, ◌≤◌, ◌<◌, ◌≡◌, refl, Bool, true, false, not, List, [], ◌∷◌, ◌++◌, length,
  filter, All, elem, map, ltb, leb, ◌==◌, nat_eq, arith, if◌then◌else◌, ◌⊎◌, inl, inr, Bool-cases,
}
use docke_compose_customize.Container.{Container}

-- `xs[:n]`
abbrev pub take {ℓ} : {A : Type ℓ} → ℕ → List A → List A
take zero xs = []
take (suc n) [] = []
take (suc n) (x ∷ xs) = x ∷ take n xs

-- `xs[n:]`
abbrev pub drop {ℓ} : {A : Type ℓ} → ℕ → List A → List A
drop zero xs = xs
drop (suc n) [] = []
drop (suc n) (x ∷ xs) = drop n xs

-- `range(start, start + n)`
abbrev pub range : ℕ → ℕ → List ℕ
range start zero = []
range start (suc n) = start ∷ range (suc start) n

abbrev pub max : ℕ → List ℕ → ℕ
max best [] = best
max best (n ∷ ns) = max (if ltb best n then n else best) ns

unfoldable pub next_container_number : List ℕ → ℕ
next_container_number [] = 1
next_container_number (n ∷ ns) = max n ns + 1

-- What `scale` hands to the parallel operations.
pub record ScalePlan : Type 0 where
  pub to_start : List Container
  pub to_create : List ℕ
  pub to_stop : List Container

module _ (key : Container → ℕ) where
  abbrev pub insert : Container → List Container → List Container
  insert x [] = x ∷ []
  insert x (y ∷ ys) = let rest = insert x ys in if leb (key x) (key y) then x ∷ y ∷ ys else y ∷ rest

  -- `sorted(cs, key=key)`, which is stable
  abbrev pub sorted : List Container → List Container
  sorted [] = []
  sorted (x ∷ xs) = insert x (sorted xs)

module _ (number : Container → ℕ) where
  unfoldable pub containers_to_start : ℕ → List Container → List Container → List Container
  containers_to_start desired_num running_containers all_containers =
      let num_running = length running_containers in
      let stopped_containers =
        sorted number (filter (λ (c : Container). not c.is_running) all_containers) in
      if num_running == length all_containers
      then []
      else if ltb desired_num (length stopped_containers + num_running)
      then take (desired_num - num_running) stopped_containers
      else stopped_containers

  -- both are lists that the client reports: without and with the stopped containers
  unfoldable pub scale : ℕ → List Container → List Container → ScalePlan
  unfolding containers_to_start
  scale desired_num running_containers all_containers =
      let num_running = length running_containers in
      let start = containers_to_start desired_num running_containers all_containers in
      if desired_num == num_running
      then record { to_start = []; to_create = []; to_stop = [] }
      else if ltb num_running desired_num
      then record {
        to_start = start;
        to_create =
            range (next_container_number (map number all_containers))
              (desired_num - (num_running + length start));
        to_stop = [];
      }
      else record {
        to_start = [];
        to_create = [];
        to_stop =
            drop (num_running - (num_running - desired_num)) (sorted number running_containers);
      }

  -- the loop of `duplicate_containers`, over containers sorted by creation time
  unfoldable pub duplicates : List ℕ → List Container → List Container
  duplicates numbers [] = []
  duplicates numbers (c ∷ cs) =
      if elem (number c) numbers
      then c ∷ duplicates numbers cs
      else duplicates (number c ∷ numbers) cs

  unfoldable pub duplicate_containers : List Container → List Container
  unfolding duplicates
  duplicate_containers containers = duplicates [] (sorted (λ (c : Container). c.created) containers)
