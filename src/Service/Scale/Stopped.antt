-- ===== src/Service/Scale/Stopped.antt =====
-- The containers that scale stops are those with the highest numbers.
use docke_compose_customize.Prelude.{
  ℕ, ◌-◌, ◌≤◌, ◌<◌, ◌≡◌, subst, sym, false, List, [], ◌∷◌, ◌++◌, length, All, ltb, leb, ◌==◌,
  nat_eq, arith, inl, inr, Bool-cases,
}
use docke_compose_customize.Container.{Container}
use docke_compose_customize.Service.Scale.{take, drop, insert, sorted, scale}
use docke_compose_customize.Service.Scale.Balance.{take-drop}

module _ (key : Container → ℕ) where
  -- The keys do not decrease.
  abbrev pub Ascending : List Container → Type 0
  Ascending [] = Unit
  Ascending (x ∷ xs) = All (λ y. key x ≤ key y) xs × Ascending xs

  All-trans :
      (a b : ℕ) (xs : List Container) → a ≤ b → All (λ y. b ≤ key y) xs → All (λ y. a ≤ key y) xs
  All-trans a b [] h k = tt
  All-trans a b (x ∷ xs) h k = (omega (arith, k.0), All-trans a b xs h k.1)

  All-insert :
      (a : ℕ) (x : Container) (ys : List Container)
      → a ≤ key x
      → All (λ y. a ≤ key y) ys
      → All (λ y. a ≤ key y) (insert key x ys)
  All-insert a x [] h k = (h, tt)
  All-insert a x (y ∷ ys) h k = elim (Bool-cases (leb (key x) (key y))) [
    | inl below ↦ rw below (h, k)
    | inr above ↦ rw above (k.0, All-insert a x ys h k.1)
  ]

  insert-Ascending :
      (x : Container) (ys : List Container) → Ascending ys → Ascending (insert key x ys)
  insert-Ascending x [] h = (tt, tt)
  insert-Ascending x (y ∷ ys) h = elim (Bool-cases (leb (key x) (key y))) [
    | inl below ↦ rw below ((ground arith, All-trans (key x) (key y) ys (ground arith) h.0), h)
    | inr above ↦ rw above (All-insert (key y) x ys (ground arith) h.0, insert-Ascending x ys h.1)
  ]

  pub sorted-Ascending : (xs : List Container) → Ascending (sorted key xs)
  sorted-Ascending [] = tt
  sorted-Ascending (x ∷ xs) = insert-Ascending x (sorted key xs) (sorted-Ascending xs)

  All-append_right :
      (a : ℕ) (xs ys : List Container) → All (λ y. a ≤ key y) (xs ++ ys) → All (λ y. a ≤ key y) ys
  All-append_right a [] ys h = h
  All-append_right a (x ∷ xs) ys h = All-append_right a xs ys h.1

  Ascending-split :
      (xs ys : List Container) → Ascending (xs ++ ys) → All (λ x. All (λ y. key x ≤ key y) ys) xs
  Ascending-split [] ys h = tt
  Ascending-split (x ∷ xs) ys h = (All-append_right (key x) xs ys h.0, Ascending-split xs ys h.1)

-- With fewer containers desired than run, the running ones in the order of their numbers are those
-- that stay and then those that are stopped: none that stays has a number above one that is stopped.
pub scale-highest :
    (number : Container → ℕ) (desired_num : ℕ) (running_containers all_containers : List Container)
    → desired_num < length running_containers
    → (stay : List Container) × (stay
          ++ (scale number desired_num running_containers all_containers).to_stop
        ≡ sorted number running_containers)
      × All
          (λ c.
            All
              (λ d. number c ≤ number d)
              (scale number desired_num running_containers all_containers).to_stop)
          stay
unfolding scale
scale-highest number desired_num running_containers all_containers h =
    let n = length running_containers - (length running_containers - desired_num) in
    let cs = sorted number running_containers in
    let ordered =
      subst (Ascending number) (sym (take-drop n cs))
        (sorted-Ascending number running_containers) in
    rw (differs desired_num (length running_containers) h) (
      rw (above desired_num (length running_containers) h)
        (take n cs, take-drop n cs, Ascending-split number (take n cs) (drop n cs) ordered))
  where
    differs : (a b : ℕ) → a < b → (a == b) ≡ false
    differs a b k = ground arith

    above : (a b : ℕ) → a < b → ltb b a ≡ false
    above a b k = ground arith
