-- ===== src/Network/Owned.antt =====
-- Which networks are created and removed.
use docke_compose_customize.Prelude.{
  String, ◌≡◌, refl, Bool, true, false, not, ◌&&◌, ◌||◌, List, [], ◌∷◌, ◌++◌, ◌==◌, string_eq,
  eq_refl, any, all, All, arith, subst, Bool-cases, inl, inr,
}
use docke_compose_customize.Result.{Result, ok, err, driver_changed, options_changed}
use docke_compose_customize.Service.Client.{Call, Daemon, M, pure, raise, ◌>>=◌, for_each, call}
use docke_compose_customize.Service.Kept.{
  Keeps, call-Keeps, bind-Keeps, pure-Keeps, raise-Keeps, if-Keeps, Handled, recover-Keeps,
  append_nil, Made,
}
use docke_compose_customize.Volume.{is_not_found}
use docke_compose_customize.Network.{Network, network_name}
use docke_compose_customize.Network.Managed.{
  is_external, driver_differs, same_options, options_or, inspect, external_missing, compare,
  create_missing, ensure, remove, warned, remove_network, remove_all, initialize,
}

-- some network that is not external has the name
abbrev pub is_owned : List Network → String → Bool
is_owned networks name = any (λ n. not (is_external n) && network_name n == name) networks

-- an inspection, or the creation of a network of the project's own
abbrev pub creates_owned : List Network → Call → Bool
creates_owned networks (Call.create_network name) = is_owned networks name
creates_owned networks (Call.inspect_network name) = true
creates_owned networks c = false

-- the removal of a network of the project's own
abbrev pub removes_owned : List Network → Call → Bool
removes_owned networks (Call.remove_network name) = is_owned networks name
removes_owned networks c = false

-- `n` is external, or one of the project's own
abbrev Ours : List Network → Network → Type 0
Ours networks n = (is_external n || is_owned networks (network_name n)) ≡ true

All-Ours :
    (networks ns : List Network)
    → ((name : String) → is_owned ns name ≡ true → is_owned networks name ≡ true)
    → All (Ours networks) ns
All-Ours networks [] h = tt
All-Ours networks (n ∷ ns) h = (
  elim (Bool-cases (is_external n)) [
    | inl external ↦ rw external refl
    | inr own ↦ rw own (h (network_name n) (rw own (rw (eq_refl (network_name n)) refl)))
  ],
  All-Ours networks ns (λ name k. h name (ground (arith, k))),
)

module _ (daemon : Daemon) (keeps : Call → Bool) (log : List Call) where
  each-Keeps :
      (networks ns : List Network) (f : Network → M Unit)
      → ((n : Network) → Ours networks n → Keeps daemon keeps log (f n))
      → All (Ours networks) ns
      → Keeps daemon keeps log (for_each f ns)
  each-Keeps networks [] f h ours = pure-Keeps daemon keeps log tt
  each-Keeps networks (n ∷ ns) f h ours =
      bind-Keeps daemon keeps log (f n) (λ _. for_each f ns) (h n ours.0)
        (λ _. each-Keeps networks ns f h ours.1)

module _ (daemon : Daemon) (answer : List Call → String × List (String × String))
    (networks : List Network) (log : List Call) where
  abbrev Creates : {A : Type 0} → M A → Type 0
  Creates m = Keeps daemon (creates_owned networks) log m

  inspect-Creates : (n : Network) → Creates (inspect daemon answer n)
  unfolding inspect
  inspect-Creates n =
      call-Keeps daemon (creates_owned networks) log (Call.inspect_network (network_name n)) refl

  missing-Handled :
      (n : Network) → Handled daemon (creates_owned networks) log (external_missing daemon answer n)
  missing-Handled n (ok t) after h = h
  missing-Handled n (err e) after h = elim (Bool-cases (is_not_found e)) [
    | inl missing ↦ rw missing h
    | inr other ↦ rw other h
  ]

  compare-Creates :
      (n : Network) (found : String × List (String × String))
      → Creates (compare daemon answer n found)
  compare-Creates n (driver, options) =
      if-Keeps daemon (creates_owned networks) log (driver_differs n.driver driver)
        (raise (driver_changed (network_name n))) _
        (raise-Keeps daemon (creates_owned networks) log (driver_changed (network_name n)))
        (if-Keeps daemon (creates_owned networks) log
          (not (same_options options (options_or n.driver_opts)))
          (raise (options_changed (network_name n))) (pure tt)
          (raise-Keeps daemon (creates_owned networks) log (options_changed (network_name n)))
          (pure-Keeps daemon (creates_owned networks) log tt))

  looked : Network → M Unit
  looked n =
      inspect daemon answer n >>= λ t. (λ at. pure (answer at) at) >>= compare daemon answer n

  looked-Creates : (n : Network) → Creates (looked n)
  unfolding looked
  looked-Creates n =
      bind-Keeps daemon (creates_owned networks) log (inspect daemon answer n) _ (inspect-Creates n)
        (λ t.
          bind-Keeps daemon (creates_owned networks) log (λ at. pure (answer at) at)
            (compare daemon answer n) (λ calls i. (calls, refl, i)) (compare-Creates n))

  create_missing-Creates :
      (n : Network) (r : Result (Unit {0}))
      → is_external n ≡ false
      → Ours networks n
      → Creates (create_missing daemon answer n r)
  create_missing-Creates n (ok t) own h = pure-Keeps daemon (creates_owned networks) log t
  create_missing-Creates n (err e) own h =
      if-Keeps daemon (creates_owned networks) log (is_not_found e)
        (call daemon (Call.create_network (network_name n))) (raise e)
        (call-Keeps daemon (creates_owned networks) log (Call.create_network (network_name n))
          (ground (arith, own, h)))
        (raise-Keeps daemon (creates_owned networks) log e)

  ensure-Creates : (n : Network) → Ours networks n → Creates (ensure daemon answer n)
  unfolding ensure looked
  ensure-Creates n h = elim (Bool-cases (is_external n)) [
    | inl external ↦ rw external (λ calls i.
        missing-Handled n (inspect daemon answer n (log ++ calls)).0
          (inspect daemon answer n (log ++ calls)).1 (inspect-Creates n calls i))
    | inr own ↦ rw own (
        recover-Keeps daemon (creates_owned networks) log (looked n)
          (create_missing daemon answer n) (looked-Creates n)
          (λ r. create_missing-Creates n r own h))
  ]

  abbrev Removes : {A : Type 0} → M A → Type 0
  Removes m = Keeps daemon (removes_owned networks) log m

  warned-Handled : Handled daemon (removes_owned networks) log (warned daemon answer)
  warned-Handled (ok t) after h = h
  warned-Handled (err e) after h = elim (Bool-cases (is_not_found e)) [
    | inl missing ↦ rw missing h
    | inr other ↦ rw other h
  ]

  remove-Removes : (n : Network) → Ours networks n → Removes (remove daemon answer n)
  unfolding remove
  remove-Removes n h = elim (Bool-cases (is_external n)) [
    | inl external ↦ rw external (pure-Keeps daemon (removes_owned networks) log tt)
    | inr own ↦ rw own (
        call-Keeps daemon (removes_owned networks) log (Call.remove_network (network_name n))
          (ground (arith, own, h)))
  ]

  remove_network-Removes :
      (n : Network) → Ours networks n → Removes (remove_network daemon answer n)
  unfolding remove_network
  remove_network-Removes n h calls i =
      warned-Handled (remove daemon answer n (log ++ calls)).0
        (remove daemon answer n (log ++ calls)).1 (remove-Removes n h calls i)

-- Initialising the networks of a project makes no calls but inspections of networks and creations of
-- networks that the project does not declare external, and removing them makes no calls but removals
-- of such networks, whatever the Docker client answers and however it ends.
pub initialize-remove_owned :
    (daemon : Daemon) (answer : List Call → String × List (String × String)) (use_networking : Bool)
    (networks : List Network) (log : List Call)
    → Made
        (λ calls. all (creates_owned networks) calls ≡ true)
        log
        (initialize daemon answer use_networking networks log).0
        (initialize daemon answer use_networking networks log).1
      × Made
          (λ calls. all (removes_owned networks) calls ≡ true)
          log
          (remove_all daemon answer use_networking networks log).0
          (remove_all daemon answer use_networking networks log).1
unfolding initialize remove_all
initialize-remove_owned daemon answer use_networking networks log = (
  subst
      (λ at.
        Made (λ calls. all (creates_owned networks) calls ≡ true) log
          (initialize daemon answer use_networking networks at).0
          (initialize daemon answer use_networking networks at).1)
      (append_nil log)
      (if-Keeps daemon (creates_owned networks) log (not use_networking) (pure tt)
        (for_each (ensure daemon answer) networks)
        (pure-Keeps daemon (creates_owned networks) log tt)
        (each-Keeps daemon (creates_owned networks) log networks networks (ensure daemon answer)
          (ensure-Creates daemon answer networks log) (All-Ours networks networks (λ name k. k)))
        [] refl),
  subst
      (λ at.
        Made (λ calls. all (removes_owned networks) calls ≡ true) log
          (remove_all daemon answer use_networking networks at).0
          (remove_all daemon answer use_networking networks at).1)
      (append_nil log)
      (if-Keeps daemon (removes_owned networks) log (not use_networking) (pure tt)
        (for_each (remove_network daemon answer) networks)
        (pure-Keeps daemon (removes_owned networks) log tt)
        (each-Keeps daemon (removes_owned networks) log networks networks
          (remove_network daemon answer) (remove_network-Removes daemon answer networks log)
          (All-Ours networks networks (λ name k. k)))
        [] refl),
)
