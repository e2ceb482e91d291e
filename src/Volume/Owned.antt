-- ===== src/Volume/Owned.antt =====
-- Which volumes are created and removed.
use docke_compose_customize.Prelude.{
  String, ◌≡◌, refl, Bool, true, false, not, ◌&&◌, ◌||◌, List, [], ◌∷◌, ◌++◌, ◌==◌, string_eq,
  eq_refl, any, all, All, arith, subst, Bool-cases, inl, inr,
}
use docke_compose_customize.Result.{ok, err, driver_differs, external_not_found}
use docke_compose_customize.Service.Client.{Call, Daemon, M, pure, raise, ◌>>=◌, ◌>>◌, for_each}
use docke_compose_customize.Service.Kept.{
  Keeps, call-Keeps, bind-Keeps, pure-Keeps, raise-Keeps, if-Keeps, Handled, append_nil, Made,
}
use docke_compose_customize.Volume.{
  Volume, is_external, full_name, is_not_found, create, remove, inspect, found, exists, differs,
  compare_driver, ensure, nonexistent, initialize_volume, initialize, warned, remove_volume,
  remove_all,
}

-- some volume that is not external has the name
abbrev pub is_owned : List Volume → String → Bool
is_owned volumes name = any (λ v. not (is_external v) && full_name v == name) volumes

-- no call but an inspection, unless it creates or removes a volume of the project's own
abbrev pub keeps : List Volume → Call → Bool
keeps volumes (Call.create_volume name) = is_owned volumes name
keeps volumes (Call.remove_volume name) = is_owned volumes name
keeps volumes (Call.inspect_volume name) = true
keeps volumes c = false

module _ (daemon : Daemon) (volumes : List Volume) (log : List Call) where
  found-Handled : Handled daemon (keeps volumes) log (found daemon)
  found-Handled (ok t) after h = h
  found-Handled (err e) after h = elim (Bool-cases (is_not_found e)) [
    | inl missing ↦ rw missing h
    | inr other ↦ rw other h
  ]

  inspect-Keeps : (v : Volume) → Keeps daemon (keeps volumes) log (inspect daemon v)
  unfolding inspect
  inspect-Keeps v = call-Keeps daemon (keeps volumes) log (Call.inspect_volume (full_name v)) refl

  exists-Keeps : (v : Volume) → Keeps daemon (keeps volumes) log (exists daemon v)
  unfolding exists
  exists-Keeps v calls i =
      found-Handled (inspect daemon v (log ++ calls)).0 (inspect daemon v (log ++ calls)).1
        (inspect-Keeps v calls i)

  -- `v` is external, or one of the project's own
  abbrev Ours : Volume → Type 0
  Ours v = (is_external v || is_owned volumes (full_name v)) ≡ true

  compare-Keeps :
      (v : Volume) (actual : String)
      → Keeps daemon (keeps volumes) log (compare_driver daemon v actual)
  compare-Keeps v actual =
      if-Keeps daemon (keeps volumes) log (differs daemon v.driver actual)
        (inspect daemon v >> raise (driver_differs v.name)) (pure tt)
        (bind-Keeps daemon (keeps volumes) log (inspect daemon v)
          (λ _. raise (driver_differs v.name)) (inspect-Keeps v)
          (λ _. raise-Keeps daemon (keeps volumes) log (driver_differs v.name)))
        (pure-Keeps daemon (keeps volumes) log tt)

  create-Keeps :
      (v : Volume)
      → is_external v ≡ false
      → Ours v
      → Keeps daemon (keeps volumes) log (create daemon v)
  unfolding create
  create-Keeps v own h =
      call-Keeps daemon (keeps volumes) log (Call.create_volume (full_name v))
        (ground (arith, own, h))

  ensure-Keeps :
      (v : Volume) (volume_exists : Bool)
      → Ours v
      → Keeps daemon (keeps volumes) log (ensure daemon v volume_exists)
  ensure-Keeps v volume_exists h = elim (Bool-cases (is_external v)) [
    | inl external ↦ rw external (
        if-Keeps daemon (keeps volumes) log (not volume_exists)
          (raise (external_not_found (full_name v))) (pure tt)
          (raise-Keeps daemon (keeps volumes) log (external_not_found (full_name v)))
          (pure-Keeps daemon (keeps volumes) log tt))
    | inr own ↦ rw own (
        if-Keeps daemon (keeps volumes) log (not volume_exists) (create daemon v)
          (inspect daemon v >> ((λ at. pure (daemon.driver at) at) >>= compare_driver daemon v))
          (create-Keeps v own h)
          (bind-Keeps daemon (keeps volumes) log (inspect daemon v)
            (λ _. (λ at. pure (daemon.driver at) at) >>= compare_driver daemon v) (inspect-Keeps v)
            (λ _.
              bind-Keeps daemon (keeps volumes) log (λ at. pure (daemon.driver at) at)
                (compare_driver daemon v) (λ calls i. (calls, refl, i)) (compare-Keeps v))))
  ]

  nonexistent-Handled : (v : Volume) → Handled daemon (keeps volumes) log (nonexistent daemon v)
  nonexistent-Handled v (ok t) after h = h
  nonexistent-Handled v (err e) after h = elim (Bool-cases (is_not_found e)) [
    | inl missing ↦ rw missing h
    | inr other ↦ rw other h
  ]

  warned-Handled : Handled daemon (keeps volumes) log (warned daemon)
  warned-Handled (ok t) after h = h
  warned-Handled (err e) after h = elim (Bool-cases (is_not_found e)) [
    | inl missing ↦ rw missing h
    | inr other ↦ rw other h
  ]

  initialize_volume-Keeps :
      (v : Volume) → Ours v → Keeps daemon (keeps volumes) log (initialize_volume daemon v)
  unfolding initialize_volume
  initialize_volume-Keeps v h calls i =
      let m = exists daemon v >>= ensure daemon v in
      nonexistent-Handled v (m (log ++ calls)).0 (m (log ++ calls)).1 (
        bind-Keeps daemon (keeps volumes) log (exists daemon v) (ensure daemon v) (exists-Keeps v)
          (λ volume_exists. ensure-Keeps v volume_exists h) calls i)

  remove-Keeps : (v : Volume) → Ours v → Keeps daemon (keeps volumes) log (remove daemon v)
  unfolding remove
  remove-Keeps v h = elim (Bool-cases (is_external v)) [
    | inl external ↦ rw external (pure-Keeps daemon (keeps volumes) log tt)
    | inr own ↦ rw own (
        call-Keeps daemon (keeps volumes) log (Call.remove_volume (full_name v))
          (ground (arith, own, h)))
  ]

  remove_volume-Keeps :
      (v : Volume) → Ours v → Keeps daemon (keeps volumes) log (remove_volume daemon v)
  unfolding remove_volume
  remove_volume-Keeps v h calls i =
      warned-Handled (remove daemon v (log ++ calls)).0 (remove daemon v (log ++ calls)).1
        (remove-Keeps v h calls i)

  each-Keeps :
      (f : Volume → M Unit) (vs : List Volume)
      → ((v : Volume) → Ours v → Keeps daemon (keeps volumes) log (f v))
      → All Ours vs
      → Keeps daemon (keeps volumes) log (for_each f vs)
  each-Keeps f [] h ours = pure-Keeps daemon (keeps volumes) log tt
  each-Keeps f (v ∷ vs) h ours =
      bind-Keeps daemon (keeps volumes) log (f v) (λ _. for_each f vs) (h v ours.0)
        (λ _. each-Keeps f vs h ours.1)

  All-Ours :
      (vs : List Volume)
      → ((name : String) → is_owned vs name ≡ true → is_owned volumes name ≡ true)
      → All Ours vs
  All-Ours [] h = tt
  All-Ours (v ∷ vs) h = (
    elim (Bool-cases (is_external v)) [
      | inl external ↦ rw external refl
      | inr own ↦ rw own (h (full_name v) (rw own (rw (eq_refl (full_name v)) refl)))
    ],
    All-Ours vs (λ name k. h name (ground (arith, k))),
  )

-- Initialising the volumes of a project makes no calls but inspections of volumes and calls that
-- create or remove a volume that the project does not declare external, whatever the Docker client
-- answers and however it ends.
pub initialize-keeps :
    (daemon : Daemon) (volumes : List Volume) (log : List Call)
    → Made
        (λ calls. all (keeps volumes) calls ≡ true)
        log
        (initialize daemon volumes log).0
        (initialize daemon volumes log).1
unfolding initialize
initialize-keeps daemon volumes log =
    subst
      (λ at.
        Made (λ calls. all (keeps volumes) calls ≡ true) log
          (for_each (initialize_volume daemon) volumes at).0
          (for_each (initialize_volume daemon) volumes at).1)
      (append_nil log)
      (each-Keeps daemon volumes log (initialize_volume daemon) volumes
        (initialize_volume-Keeps daemon volumes log)
        (All-Ours daemon volumes log volumes (λ name k. k)) [] refl)

-- Removing the volumes of a project makes no calls but inspections of volumes and calls that create
-- or remove a volume that the project does not declare external, whatever the Docker client answers
-- and however it ends.
pub remove_all-keeps :
    (daemon : Daemon) (volumes : List Volume) (log : List Call)
    → Made
        (λ calls. all (keeps volumes) calls ≡ true)
        log
        (remove_all daemon volumes log).0
        (remove_all daemon volumes log).1
unfolding remove_all
remove_all-keeps daemon volumes log =
    subst
      (λ at.
        Made (λ calls. all (keeps volumes) calls ≡ true) log
          (for_each (remove_volume daemon) volumes at).0
          (for_each (remove_volume daemon) volumes at).1)
      (append_nil log)
      (each-Keeps daemon volumes log (remove_volume daemon) volumes
        (remove_volume-Keeps daemon volumes log) (All-Ours daemon volumes log volumes (λ name k. k))
        [] refl)
