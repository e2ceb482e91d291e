-- ===== src/Service/Scale/Laws.antt =====
-- What the numbers that scale computes mean.
use docke_compose_customize.Prelude.{
  ℕ, zero, suc, ◌+◌, ◌-◌, ◌≤◌, ◌<◌, ◌≡◌, refl, true, not, List, [], ◌∷◌, length, All, All-elem,
  elem, count, bit, map, ltb, ◌==◌, nat_eq, eq_refl, arith, if◌then◌else◌, inl, inr, ◌&&◌,
  Bool-cases,
}
use docke_compose_customize.Container.{Container}
use docke_compose_customize.Service.Scale.{
  range, max, next_container_number, insert, sorted, containers_to_start, scale, duplicates,
  duplicate_containers,
}

count-insert :
    (key number : Container → ℕ) (n : ℕ) (x : Container) (ys : List Container)
    → count n (map number (insert key x ys)) ≡ bit (number x == n) + count n (map number ys)
count-insert key number n x [] = refl
count-insert key number n x (y ∷ ys) = ground (arith, count-insert key number n x ys)

count-sorted :
    (key number : Container → ℕ) (n : ℕ) (xs : List Container)
    → count n (map number (sorted key xs)) ≡ count n (map number xs)
count-sorted key number n [] = refl
count-sorted key number n (x ∷ xs) =
    ground (arith, count-insert key number n x (sorted key xs), count-sorted key number n xs)

elem-count : (n : ℕ) (ns : List ℕ) → elem n ns ≡ ltb 0 (count n ns)
elem-count n [] = refl
elem-count n (m ∷ ns) = ground (arith, elem-count n ns)

count-duplicates :
    (number : Container → ℕ) (n : ℕ) (numbers : List ℕ) (cs : List Container)
    → count n (map number (duplicates number numbers cs))
        + bit (elem n (map number cs) && not (elem n numbers))
      ≡ count n (map number cs)
unfolding duplicates
count-duplicates number n numbers [] = refl
count-duplicates number n numbers (c ∷ cs) = elim (Bool-cases (number c == n)) [
  | inl same ↦ rw ((nat_eq.beq_iff (number c) n).0 same) (
      ground (
        arith,
        eq_refl n,
        count-duplicates number n numbers cs,
        count-duplicates number n (n ∷ numbers) cs,
        elem-count n (map number cs),
      ))
  | inr other ↦ ground (
    arith,
    other,
    count-duplicates number n numbers cs,
    count-duplicates number n (number c ∷ numbers) cs,
  )
]

-- Of the containers with a number that some container has, all but one are duplicates.
pub count-duplicate_containers :
    (number : Container → ℕ) (containers : List Container) (n : ℕ)
    → count n (map number (duplicate_containers number containers))
        + bit (elem n (map number containers))
      ≡ count n (map number containers)
unfolding duplicate_containers
count-duplicate_containers number containers n =
    let cs = sorted (λ (c : Container). c.created) containers in
    ground (
      arith,
      count-duplicates number n [] cs,
      count-sorted (λ (c : Container). c.created) number n containers,
      elem-count n (map number cs),
      elem-count n (map number containers),
    )

max-le : (best : ℕ) (ns : List ℕ) → (best ≤ max best ns) × All (λ n. n ≤ max best ns) ns
max-le best [] = (omega arith, tt)
max-le best (n ∷ ns) =
    let (here, rest) = max-le (if ltb best n then n else best) ns in
    (ground (arith, here), (ground (arith, here), rest))

next-fresh : (ns : List ℕ) (m : ℕ) → elem m ns ≡ true → m < next_container_number ns
unfolding next_container_number
next-fresh [] m h = absurd (ground arith)
next-fresh (n ∷ ns) m h =
    let all_le = max-le n ns in
    omega (arith, All-elem (λ k. k ≤ max n ns) (n ∷ ns) m (all_le.0, all_le.1) h)

range-le : (start n m : ℕ) → elem m (range start n) ≡ true → start ≤ m
range-le start zero m h = absurd (ground arith)
range-le start (suc n) m h = ground (arith, range-le (suc start) n m, nat_eq.beq_iff start m)

-- The number of a container that scale creates is above that of every container that exists.
pub scale-fresh :
    (number : Container → ℕ) (desired_num : ℕ) (running_containers all_containers : List Container)
    (old new : ℕ)
    → elem old (map number all_containers) ≡ true
    → elem new (scale number desired_num running_containers all_containers).to_create ≡ true
    → old < new
unfolding scale
scale-fresh number desired_num running_containers all_containers old new h k =
    let num_running = length running_containers in
    let start = containers_to_start number desired_num running_containers all_containers in
    let next = next_container_number (map number all_containers) in
    ground (
      arith,
      next-fresh (map number all_containers) old h,
      range-le next (desired_num - (num_running + length start)) new,
    )
