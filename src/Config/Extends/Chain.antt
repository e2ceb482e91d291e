-- ===== src/Config/Extends/Chain.antt =====
-- Resolving `extends` ends, and gives what following the chain of services gives.
use docke_compose_customize.Prelude.{
  ℕ, zero, suc, String, ◌≡◌, ◌≢◌, refl, ap, ◌∙◌, ◌≤◌, ◌<◌, ◌+◌, true, false, Option, none, some,
  List, [], ◌∷◌, ◌++◌, ◌==◌, eq_refl, elem, count, bit, count-append, count-pos_of_elem,
  count-zero_of_not-elem, length, length-append, length-le_of_count, arith, Bool-cases, inl, inr,
}
use docke_compose_customize.Result.{
  Signature, Result, ok, err, diverged, ◌>>=◌, Outcome, bind-ok, bind-err,
}
use docke_compose_customize.Config.Value.{Value, Fields, get_field}
use docke_compose_customize.Config.Extends.{
  ServiceConfig, signature, signature_eq, Files, extended, merge_extended, extend_with, run,
  absolute, path_of, dir_of, with_abs_paths, get_extended_config_path, extends_options,
  validate_extended_service_dict,
}

-- What a service comes to by the services that it extends, one after the other.
pub data Resolves (files : Files) : ServiceConfig → ServiceConfig → Type 0 where
  plain : {c : ServiceConfig} → get_field "extends" c.config ≡ none → Resolves files c c
  extending :
      {c next resolved result : ServiceConfig} {extends : Value}
      → get_field "extends" c.config ≡ some extends
      → extended files c extends ≡ ok next
      → Resolves files next resolved
      → merge_extended files c resolved ≡ ok result
      → Resolves files c result

module _ (files : Files) (universe : List Signature)
    (finite : (c next : ServiceConfig) (extends : Value)
      → extended files c extends ≡ ok next
      → elem (signature next) universe ≡ true)
    (reads : (c : ServiceConfig) (extends : Value) → extended files c extends ≢ err diverged)
    (merges : (c resolved : ServiceConfig) → merge_extended files c resolved ≢ err diverged) where
  abbrev Within : List Signature → Type 0
  Within seen = (a : Signature) → count a seen ≤ count a universe

  seen-Within :
      (x : Signature) (seen : List Signature)
      → elem x universe ≡ true
      → elem x seen ≡ false
      → Within seen
      → Within (seen ++ x ∷ [])
  seen-Within x seen member fresh within a = elim (Bool-cases (x == a)) [
    | inl same ↦ rw (← (signature_eq.beq_iff x a).0 same) (
        omega (
          arith,
          count-append x seen (x ∷ []),
          count-zero_of_not-elem x seen fresh,
          count-pos_of_elem x universe member,
          ap bit (eq_refl x),
        ))
    | inr other ↦ ground (arith, count-append a seen (x ∷ []), other, within a)
  ]

  abbrev Resolved : ServiceConfig → Result ServiceConfig → Type 0
  Resolved c r = Outcome (Resolves files c) r

  merged-Resolved :
      (c next resolved : ServiceConfig) (extends : Value) (r : Result ServiceConfig)
      → get_field "extends" c.config ≡ some extends
      → extended files c extends ≡ ok next
      → Resolves files next resolved
      → merge_extended files c resolved ≡ r
      → Resolved c r
  merged-Resolved c next resolved extends (ok result) e h chain m = Resolves.extending e h chain m
  merged-Resolved c next resolved extends (err error) e h chain m =
      λ same. merges c resolved (m ∙ ap err same)

  rest-Resolved :
      (c next : ServiceConfig) (extends : Value) (r : Result ServiceConfig)
      → get_field "extends" c.config ≡ some extends
      → extended files c extends ≡ ok next
      → Resolved next r
      → Resolved c (r >>= merge_extended files c)
  rest-Resolved c next extends (ok resolved) e h chain =
      merged-Resolved c next resolved extends (merge_extended files c resolved) e h chain refl
  rest-Resolved c next extends (err error) e h chain = chain

  next-Resolved :
      (rec : ServiceConfig → Result ServiceConfig)
      → ((n : ServiceConfig) → elem (signature n) universe ≡ true → Resolved n (rec n))
      → (c : ServiceConfig) (extends : Value) (r : Result ServiceConfig)
      → get_field "extends" c.config ≡ some extends
      → extended files c extends ≡ r
      → Resolved c (r >>= rec >>= merge_extended files c)
  next-Resolved rec h c extends (ok next) e same =
      rest-Resolved c next extends (rec next) e same (h next (finite c next extends same))
  next-Resolved rec h c extends (err error) e same = λ k. reads c extends (same ∙ ap err k)

  extend_with-Resolved :
      (rec : ServiceConfig → Result ServiceConfig)
      → ((n : ServiceConfig) → elem (signature n) universe ≡ true → Resolved n (rec n))
      → (c : ServiceConfig) (found : Option Value) → get_field "extends" c.config ≡ found
      → Resolved c (extend_with files rec c found)
  extend_with-Resolved rec h c none e = Resolves.plain e
  extend_with-Resolved rec h c (some extends) e =
      next-Resolved rec h c extends (extended files c extends) e refl

  run-Resolved :
      (fuel : ℕ) (seen : List Signature)
      → Within seen
      → length universe < fuel + length seen
      → (c : ServiceConfig) → elem (signature c) universe ≡ true
      → Resolved c (run files fuel seen c)
  unfolding run
  run-Resolved zero seen within enough c member =
      absurd (omega (arith, length-le_of_count seen universe within))
  run-Resolved (suc fuel) seen within enough c member =
      elim (Bool-cases (elem (signature c) seen)) [
        | inl cycle ↦ rw cycle (λ same. cc)
        | inr fresh ↦
            let x = signature c in
            let longer = length-append seen (x ∷ []) in
            rw fresh (
              extend_with-Resolved (run files fuel (seen ++ x ∷ []))
                (run-Resolved fuel (seen ++ x ∷ []) (seen-Within x seen member fresh within)
                  (omega (arith, longer)))
                c (get_field "extends" c.config) refl)
      ]

  ends :
      (c : ServiceConfig)
      → elem (signature c) universe ≡ true
      → Outcome (Resolves files c) (run files (suc (length universe)) [] c)
  ends c member = run-Resolved (suc (length universe)) [] (λ a. omega arith) (omega arith) c member

module _ (files : Files) (universe : List Signature)
    (finite : (path : Option String) (name : String) (d : Fields)
      → files.load path name ≡ ok d
      → elem (record { filename = absolute files path; name = name }) universe ≡ true) where
  with_abs_paths-signature :
      (working_dir : String) (path : Option String) (name : String) (d : Fields)
      (next : ServiceConfig)
      → with_abs_paths files working_dir path name d ≡ ok next
      → (record { filename = absolute files path; name = name }) ≡ signature next
  unfolding with_abs_paths signature
  with_abs_paths-signature working_dir path name d next h = ground arith

  extended-finite :
      (c next : ServiceConfig) (extends : Value)
      → extended files c extends ≡ ok next
      → elem (signature next) universe ≡ true
  unfolding extended
  extended-finite c next extends h =
      let (options, _, h1) = bind-ok (extends_options extends) _ next h in
      let (path, _, h2) = bind-ok (get_extended_config_path files c options) _ next h1 in
      let (d, loads, h3) = bind-ok (files.load path options.service) _ next h2 in
      rw (← with_abs_paths-signature (dir_of files path) path options.service d next h3)
        (finite path options.service d loads)

module _ (files : Files)
    (reads : (path : Option String) (name : String) → files.load path name ≢ err diverged)
    (processes : (c : ServiceConfig) → files.process_service c ≢ err diverged)
    (combines : (base override : Fields)
      → files.merge_service_dicts base override ≢ err diverged) where
  options-reads : (v : Value) → extends_options v ≢ err diverged
  unfolding extends_options
  options-reads v same = ground arith

  path-reads : (c : ServiceConfig) (file : Option String) → path_of files c file ≢ err diverged
  path-reads c (some file) same = cc
  path-reads c none same = ground arith

  extended-reads : (c : ServiceConfig) (extends : Value) → extended files c extends ≢ err diverged
  unfolding extended get_extended_config_path with_abs_paths
  extended-reads c extends =
      bind-err (extends_options extends) _ diverged (options-reads extends) (λ options.
        bind-err (path_of files c options.file) _ diverged (path-reads c options.file) (λ path.
          bind-err (files.load path options.service) _ diverged (reads path options.service)
            (λ d same. ground arith)))

  merge-reads : (c resolved : ServiceConfig) → merge_extended files c resolved ≢ err diverged
  unfolding merge_extended validate_extended_service_dict
  merge-reads c resolved =
      bind-err (files.process_service resolved) _ diverged (processes resolved) (λ other.
        bind-err (validate_extended_service_dict other) _ diverged (λ same. ground arith)
          (λ u.
            bind-err (files.merge_service_dicts other c.config) _ diverged (combines other c.config)
              (λ config same. cc)))

-- Where the files hold finitely many services, of which `universe` has the signatures, and reading
-- them, processing a service and merging two end, resolving `extends` ends: with one of the program's errors, or with what following the
-- chain of extended services gives. The fuel is one more than there are services.
pub run_lem :
    (files : Files) (universe : List Signature) (c : ServiceConfig)
    → ((path : Option String) (name : String) (d : Fields)
        → files.load path name ≡ ok d
        → elem (record { filename = absolute files path; name = name }) universe ≡ true)
    → ((path : Option String) (name : String) → files.load path name ≢ err diverged)
    → ((c : ServiceConfig) → files.process_service c ≢ err diverged)
    → ((base override : Fields) → files.merge_service_dicts base override ≢ err diverged)
    → elem (signature c) universe ≡ true
    → Outcome (Resolves files c) (run files (suc (length universe)) [] c)
run_lem files universe c finite reads processes combines member =
    ends files universe (extended-finite files universe finite)
      (extended-reads files reads processes combines) (merge-reads files reads processes combines) c
      member
