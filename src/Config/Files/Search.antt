-- ===== src/Config/Files/Search.antt =====
-- Where the Compose files are found.
use docke_compose_customize.Prelude.{
  ℕ, zero, suc, ◌<◌, String, ◌≡◌, refl, Bool, true, false, not, ◌&&◌, ◌||◌, List, [], ◌∷◌, filter,
  any, ◌==◌, string_eq, arith, Bool-cases, inl, inr,
}
use docke_compose_customize.Result.{Returns, Returns-map}
use docke_compose_customize.Config.Files.{is_nil, find_candidates_in_parent_dirs}

module _ (join : String → String → String) (abspath : String → String) (exists : String → Bool)
    (filenames : List String) where
  -- the search in a directory goes on in the one above
  abbrev pub goes_on : String → Bool
  goes_on path =
      not (any (λ f. exists (join path f)) filenames)
      && not (abspath (join path "..") == abspath path)

  -- the search that begins in one directory ends in another
  pub data LeadsTo : String → String → Type 0 where
    here : (path : String) → goes_on path ≡ false → LeadsTo path path
    above :
        (path found : String)
        → goes_on path ≡ true
        → LeadsTo (join path "..") found
        → LeadsTo path found

  -- the files found are those of the directory where the search ends: some, or it is the root
  abbrev pub Ends : String → List String × String → Type 0
  Ends path r =
      LeadsTo path r.1
      × (r.0 ≡ filter (λ f. exists (join r.1 f)) filenames)
      × ((any (λ f. exists (join r.1 f)) filenames || (abspath (join r.1 "..") == abspath r.1))
          ≡ true)

  none-any :
      (p : String → Bool) (names : List String)
      → is_nil join abspath exists (filter p names) ≡ not (any p names)
  none-any p [] = refl
  none-any p (n ∷ names) = ground (arith, none-any p names)

  -- Where each directory but the root is deeper than the one above, and the fuel is more than the
  -- depth of the given directory, the search ends in the first directory at or above it that has
  -- one of the files, or else in the root; what it gives are all of the files that are there, in
  -- their order.
  pub find_candidates_in_parent_dirs_lem :
      (depth : String → ℕ)
      → ((path : String)
          → (abspath (join path "..") == abspath path) ≡ false
          → depth (join path "..") < depth path)
      → (fuel : ℕ) (path : String) → depth path < fuel
      → Returns (Ends path) (find_candidates_in_parent_dirs join abspath exists fuel filenames path)
  unfolding find_candidates_in_parent_dirs
  find_candidates_in_parent_dirs_lem depth lower zero path h = absurd (omega (arith, h))
  find_candidates_in_parent_dirs_lem depth lower (suc fuel) path h =
      let found = none-any (λ f. exists (join path f)) filenames in
      elim (Bool-cases (goes_on path)) [
        | inr stops ↦ rw found (rw stops (here path stops, refl, ground (arith, stops)))
        | inl on ↦ rw found (
            rw on (
              Returns-map (Ends (join path "..")) (Ends path)
                (find_candidates_in_parent_dirs join abspath exists fuel filenames (join path ".."))
                (λ r ends. (above path r.1 on ends.0, ends.1, ends.2))
                (find_candidates_in_parent_dirs_lem depth lower fuel (join path "..")
                  (omega (arith, h, lower path (ground (arith, on)))))))
      ]
