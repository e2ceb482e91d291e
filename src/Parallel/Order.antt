-- ===== src/Parallel/Order.antt =====
-- No function runs before its dependencies are done.
use docke_compose_customize.Prelude.{
  ℕ, ◌≤◌, ◌≡◌, true, false, not, ◌||◌, List, arith, ◌==◌, nat_eq, elem, all-elem, count, Bool-cases,
  inl, inr,
}
use docke_compose_customize.Parallel.{
  done, raised, upstream, stop, State, Run, has_failed_dep, is_ready, feed, close, handle, start,
  Step, look, finish_feed, take, reorder, timeout, return, throw, Reach, here, next,
}
use docke_compose_customize.Parallel.Invariant.{Reach-Account, elem-add, tally, done_of}

module _ (objects : List ℕ) (get_deps : ℕ → List ℕ) where
  -- Object `o`, if it has been started, has its dependency `d` finished.
  abbrev IsOrdered : ℕ → ℕ → Run → Type 0
  IsOrdered o d r = elem o r.state.started ≡ true → elem d r.state.finished ≡ true

  module _ (o d : ℕ) (dep : elem d (get_deps o) ≡ true) (inside : elem d objects ≡ true) where
    ready_dep : (s : State) → is_ready objects get_deps s o ≡ true → elem d s.finished ≡ true
    unfolding is_ready
    ready_dep s h = ground (
      arith,
      all-elem (λ (x : ℕ). not (elem x objects) || elem x s.finished) (get_deps o) d h dep,
    )

    IsOrdered-feed :
        (obj : ℕ) (rest : List ℕ) (r : Run)
        → IsOrdered o d r
        → IsOrdered o d (feed objects get_deps obj rest r)
    unfolding feed
    IsOrdered-feed obj rest r h = elim (Bool-cases (has_failed_dep objects get_deps r.state obj)) [
      | inl failed ↦ rw failed h
      | inr fine ↦ elim (Bool-cases (is_ready objects get_deps r.state obj)) [
        | inl ready ↦
            rw (fine, ready)
              (λ k. elim (Bool-cases (obj == o)) [
                | inl same ↦ ready_dep r.state (rw ((nat_eq.beq_iff obj o).0 same) at ready)
                | inr other ↦ h (ground (arith, elem-add o obj r.state.started))
              ])
        | inr blocked ↦ rw (fine, blocked) h
      ]
    ]

    IsOrdered-Step : (r r' : Run) → Step objects get_deps r r' → IsOrdered o d r → IsOrdered o d r'
    unfolding close handle
    IsOrdered-Step r r' (look obj rest p e) h = rw e (IsOrdered-feed obj rest r h)
    IsOrdered-Step r r' (finish_feed p e) h = rw e h
    IsOrdered-Step r r' (take stop rest p q e) h = rw e h
    IsOrdered-Step r r' (take (done obj) rest p q e) h =
        rw e (λ k. ground (arith, elem-add d obj r.state.finished, h k))
    IsOrdered-Step r r' (take (raised obj) rest p q e) h = rw e h
    IsOrdered-Step r r' (take (upstream obj) rest p q e) h = rw e h
    IsOrdered-Step r r' (reorder xs ys p same e) h = rw e h
    IsOrdered-Step r r' (timeout p q e) h = rw e h
    IsOrdered-Step r r' (return obj k e) h = rw e h
    IsOrdered-Step r r' (throw obj k e) h = rw e h

    Reach-IsOrdered : {r : Run} → Reach objects get_deps r → IsOrdered o d r
    unfolding start
    Reach-IsOrdered here = λ h. cc
    Reach-IsOrdered (next {r = r} {r' = r'} reach step) =
        IsOrdered-Step r r' step (Reach-IsOrdered reach)

-- In every run, when the function has been started on an object, each of its dependencies that is
-- among the (distinct) objects has returned normally, its one result has been yielded, and it is
-- not among the failed objects.
pub started-after-deps :
    (objects : List ℕ) (get_deps : ℕ → List ℕ) (o d : ℕ) {r : Run}
    → count d objects ≤ 1
    → Reach objects get_deps r
    → elem o r.state.started ≡ true
    → elem d (get_deps o) ≡ true
    → elem d objects ≡ true
    → (tally (done_of d) r.yielded ≡ 1) × (elem d r.state.failed ≡ false)
started-after-deps objects get_deps o d {r} u reach started dep inside =
    let account = Reach-Account objects get_deps d u reach in
    let finished = Reach-IsOrdered objects get_deps o d dep inside reach started in ground arith
