-- ===== src/Service/Scale/Balance.antt =====
-- scale: how many containers are started, created and stopped, and which are started.
use docke_compose_customize.Prelude.{
  ℕ, zero, suc, ◌+◌, ◌-◌, ◌≤◌, ◌≡◌, refl, ap, true, false, not, all, List, [], ◌∷◌, ◌++◌, length,
  filter, map, ltb, ◌==◌, nat_eq, arith, ◌⊎◌, inl, inr, Bool-cases,
}
use docke_compose_customize.Container.{Container}
use docke_compose_customize.Service.Scale.{
  take, drop, range, next_container_number, insert, sorted, containers_to_start, scale,
}

length-take : (n : ℕ) (xs : List Container) → n ≤ length xs → length (take n xs) ≡ n
length-take zero xs h = refl
length-take (suc n) [] h = absurd (omega arith)
length-take (suc n) (x ∷ xs) h = omega (arith, length-take n xs)

pub take-drop : (n : ℕ) (xs : List Container) → take n xs ++ drop n xs ≡ xs
take-drop zero xs = refl
take-drop (suc n) [] = refl
take-drop (suc n) (x ∷ xs) = ap (λ rest. x ∷ rest) (take-drop n xs)

length-range : (start n : ℕ) → length (range start n) ≡ n
length-range start zero = refl
length-range start (suc n) = omega (arith, length-range (suc start) n)

length-insert :
    (key : Container → ℕ) (x : Container) (ys : List Container)
    → length (insert key x ys) ≡ suc (length ys)
length-insert key x [] = refl
length-insert key x (y ∷ ys) = ground (arith, length-insert key x ys)

length-sorted : (key : Container → ℕ) (xs : List Container) → length (sorted key xs) ≡ length xs
length-sorted key [] = refl
length-sorted key (x ∷ xs) =
    ground (arith, length-insert key x (sorted key xs), length-sorted key xs)

length-drop : (n : ℕ) (xs : List Container) → length (drop n xs) ≡ length xs - n
length-drop zero xs = omega arith
length-drop (suc n) [] = omega arith
length-drop (suc n) (x ∷ xs) = omega (arith, length-drop n xs)

length-containers_to_start :
    (number : Container → ℕ) (desired_num : ℕ) (running_containers all_containers : List Container)
    → length running_containers ≤ desired_num
    → length running_containers
        + length (containers_to_start number desired_num running_containers all_containers)
      ≤ desired_num
unfolding containers_to_start
length-containers_to_start number desired_num running_containers all_containers h =
    let stopped = sorted number (filter (λ (c : Container). not c.is_running) all_containers) in
    ground (arith, length-take (desired_num - length running_containers) stopped)

abbrev pub stopped_among : (Container → ℕ) → List Container → List Container
stopped_among number all_containers =
    sorted number (filter (λ (c : Container). not c.is_running) all_containers)

are_stopped_insert :
    (key : Container → ℕ) (x : Container) (ys : List Container)
    → x.is_running ≡ false
    → all (λ (c : Container). not c.is_running) ys ≡ true
    → all (λ (c : Container). not c.is_running) (insert key x ys) ≡ true
are_stopped_insert key x [] h k = ground (arith, h)
are_stopped_insert key x (y ∷ ys) h k = ground (arith, h, are_stopped_insert key x ys)

are_stopped_sorted :
    (number : Container → ℕ) (cs : List Container)
    → all (λ (c : Container). not c.is_running) (stopped_among number cs) ≡ true
are_stopped_sorted number [] = refl
are_stopped_sorted number (c ∷ cs) =
    ground
      (arith, are_stopped_insert number c (stopped_among number cs), are_stopped_sorted number cs)

are_stopped_front :
    (a b : List Container)
    → all (λ (c : Container). not c.is_running) (a ++ b) ≡ true
    → all (λ (c : Container). not c.is_running) a ≡ true
are_stopped_front [] b h = refl
are_stopped_front (c ∷ a) b h = ground (arith, are_stopped_front a b)

append_none : (cs : List Container) → cs ++ [] ≡ cs
append_none [] = refl
append_none (c ∷ cs) = ap (λ rest. c ∷ rest) (append_none cs)

containers_to_start-front :
    (number : Container → ℕ) (desired_num : ℕ) (running_containers all_containers : List Container)
    → (rest : List Container) × (containers_to_start number desired_num running_containers
            all_containers
          ++ rest
        ≡ stopped_among number all_containers)
unfolding containers_to_start
containers_to_start-front number desired_num running_containers all_containers =
    let stopped = stopped_among number all_containers in
    let num_running = length running_containers in
    elim (Bool-cases (num_running == length all_containers)) [
      | inl every ↦ rw every (stopped, refl)
      | inr some_stopped ↦ elim (Bool-cases (ltb desired_num (length stopped + num_running))) [
        | inl many ↦
            rw (some_stopped, many)
              (
                drop (desired_num - num_running) stopped,
                take-drop (desired_num - num_running) stopped,
              )
        | inr few ↦ rw (some_stopped, few) ([], append_none stopped)
      ]
    ]

scale-front :
    (number : Container → ℕ) (desired_num : ℕ) (running_containers all_containers : List Container)
    → (rest : List Container) × ((scale number desired_num running_containers
            all_containers).to_start
          ++ rest
        ≡ stopped_among number all_containers)
unfolding scale
scale-front number desired_num running_containers all_containers =
    let stopped = stopped_among number all_containers in
    let num_running = length running_containers in
    elim (Bool-cases (desired_num == num_running)) [
      | inl same ↦ rw same (stopped, refl)
      | inr other ↦ elim (Bool-cases (ltb num_running desired_num)) [
        | inl more ↦
            rw (other, more)
              (containers_to_start-front number desired_num running_containers all_containers)
        | inr fewer ↦ rw (other, fewer) (stopped, refl)
      ]
    ]

scale-lengths :
    (number : Container → ℕ) (desired_num : ℕ) (running_containers all_containers : List Container)
    → let plan = scale number desired_num running_containers all_containers in
      (length running_containers + length plan.to_start + length plan.to_create
        ≡ desired_num + length plan.to_stop)
      × ((plan.to_stop ≡ []) ⊎ ((plan.to_start ≡ []) × (plan.to_create ≡ [])))
unfolding scale
scale-lengths number desired_num running_containers all_containers =
    let start = length-containers_to_start number desired_num running_containers all_containers in
    let created = length-range (next_container_number (map number all_containers)) (
      desired_num
      - (length running_containers
          + length (containers_to_start number desired_num running_containers all_containers))) in
    let kept = length running_containers - (length running_containers - desired_num) in
    ground (
      arith,
      start,
      created,
      length-drop kept (sorted number running_containers),
      length-sorted number running_containers,
    )

-- The running containers, those to start and those to create are as many as desired and those to
-- stop together, and whatever the client reports, nothing is stopped where something is started or
-- created. What is started is not running: these are the stopped containers with the lowest numbers.
pub scale-balance :
    (number : Container → ℕ) (desired_num : ℕ) (running_containers all_containers : List Container)
    → let plan = scale number desired_num running_containers all_containers in
      (length running_containers + length plan.to_start + length plan.to_create
        ≡ desired_num + length plan.to_stop)
      × ((plan.to_stop ≡ []) ⊎ ((plan.to_start ≡ []) × (plan.to_create ≡ [])))
      × (all (λ (c : Container). not c.is_running) plan.to_start ≡ true)
      × ((rest : List Container) × (plan.to_start ++ rest
            ≡ sorted number (filter (λ (c : Container). not c.is_running) all_containers)))
scale-balance number desired_num running_containers all_containers =
    let plan = scale number desired_num running_containers all_containers in
    let (balanced, one_way) = scale-lengths number desired_num running_containers all_containers in
    let (rest, same) = scale-front number desired_num running_containers all_containers in
    (
      balanced,
      one_way,
      are_stopped_front plan.to_start rest (rw same (are_stopped_sorted number all_containers)),
      (rest, same),
    )
