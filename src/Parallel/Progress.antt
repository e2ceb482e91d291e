-- ===== src/Parallel/Progress.antt =====
-- The loop does not wait for ever when the dependencies have no cycle.
use docke_compose_customize.Prelude.{
  ℕ, zero, suc, ◌≤◌, ◌<◌, ◌≡◌, ◌⊎◌, refl, Bool, true, false, not, ◌&&◌, ◌||◌, List, [], ◌∷◌, ◌++◌,
  arith, ◌==◌, nat_eq, elem, elem-filter, remove, any, any_mono, any_exists, any-not-all, count,
  length-append, length-le_of_count, count-append, count-zero_of_not-elem, count-pos_of_elem, ltb,
  Bool-cases, inl, inr,
}
use docke_compose_customize.Parallel.{
  Event, done, raised, upstream, stop, Phase, feeding, waiting, stopped, State, Run, is_done,
  pending, has_failed_dep, is_ready, feed, close, handle, start, Step, look, finish_feed, take,
  reorder, timeout, return, throw, Reach, here, next,
}
use docke_compose_customize.Parallel.Invariant.{
  Reach-Account, elem-add, tally, tally-append, upstream_of, looking,
}
use docke_compose_customize.Parallel.Complete.{Reach-IsClosed, stop_of}

module _ (objects : List ℕ) (get_deps : ℕ → List ℕ) where
  -- Dependency `d` holds an object back, and its failure, if any, is still in the queue.
  abbrev holds : Run → ℕ → Bool
  holds r d =
      elem d objects
      && not (elem d r.state.finished)
      && (not (elem d r.state.failed) || ltb 0 (tally (upstream_of d) r.queue))

  -- An object that is in no set will be looked at, or a dependency holds it back.
  abbrev Waits : ℕ → Run → Type 0
  Waits o r =
      elem o r.state.started ≡ false
      → elem o r.state.finished ≡ false
      → elem o r.state.failed ≡ false
      → (elem o (looking r.phase) || any (holds r) (get_deps o)) ≡ true

  -- `holds` grows while `feed_queue` runs and when a producer ends.
  Waits-mono :
      (o : ℕ) (r r' : Run)
      → ((d : ℕ) → holds r d ≡ true → holds r' d ≡ true)
      → any (holds r) (get_deps o) ≡ true
      → any (holds r') (get_deps o) ≡ true
  Waits-mono o r r' h k = any_mono (holds r) (holds r') (get_deps o) h k

  held_back :
      (obj : ℕ) (r : Run)
      → has_failed_dep objects get_deps r.state obj ≡ false
      → is_ready objects get_deps r.state obj ≡ false
      → any (holds r) (get_deps obj) ≡ true
  unfolding has_failed_dep is_ready
  held_back obj r fine blocked =
      any_mono _ (holds r) (get_deps obj) (λ d h. ground arith)
        (any-not-all (λ (d : ℕ). not (elem d objects) || elem d r.state.finished)
          (λ (d : ℕ). elem d r.state.failed) (get_deps obj) blocked fine)

  holds-feed :
      (obj : ℕ) (rest : List ℕ) (r : Run) (d : ℕ)
      → holds r d ≡ true
      → holds (feed objects get_deps obj rest r) d ≡ true
  unfolding feed
  holds-feed obj rest r d h = ground (
    arith,
    elem-add d obj r.state.failed,
    nat_eq.beq_iff obj d,
    tally-append (upstream_of d) r.queue (upstream obj ∷ []),
  )

  feed-phase :
      (obj : ℕ) (rest : List ℕ) (r : Run) → (feed objects get_deps obj rest r).phase ≡ feeding rest
  unfolding feed
  feed-phase obj rest r = ground arith

  -- What is in no set after a look was in none before; the object itself is neither upstream of a
  -- failure nor ready.
  feed_untouched :
      (o obj : ℕ) (rest : List ℕ) (r : Run)
      → elem o (feed objects get_deps obj rest r).state.started ≡ false
      → elem o (feed objects get_deps obj rest r).state.finished ≡ false
      → elem o (feed objects get_deps obj rest r).state.failed ≡ false
      → (elem o r.state.started ≡ false)
        × (elem o r.state.finished ≡ false)
        × (elem o r.state.failed ≡ false)
        × (((obj == o) ≡ false)
            ⊎ ((has_failed_dep objects get_deps r.state obj ≡ false)
                × (is_ready objects get_deps r.state obj ≡ false)))
  unfolding feed
  feed_untouched o obj rest r s f b =
      ground (arith, elem-add o obj r.state.started, elem-add o obj r.state.failed)

  any-holds :
      (o obj : ℕ) (rest : List ℕ) (r : Run)
      → r.phase ≡ feeding (obj ∷ rest)
      → (elem o (looking r.phase) || any (holds r) (get_deps o)) ≡ true
      → ((obj == o) ≡ false)
        ⊎ ((has_failed_dep objects get_deps r.state obj ≡ false)
            × (is_ready objects get_deps r.state obj ≡ false))
      → (elem o rest || any (holds r) (get_deps o)) ≡ true
  any-holds o obj rest r p w (inl other) = ground arith
  any-holds o obj rest r p w (inr (fine, blocked)) = elim (Bool-cases (obj == o)) [
    | inl same ↦ rw (← (nat_eq.beq_iff obj o).0 same) (ground (arith, held_back obj r fine blocked))
    | inr other ↦ ground arith
  ]

  Waits-feed :
      (o obj : ℕ) (rest : List ℕ) (r : Run)
      → r.phase ≡ feeding (obj ∷ rest)
      → Waits o r
      → Waits o (feed objects get_deps obj rest r)
  Waits-feed o obj rest r p w s f b =
      let (s', f', b', own) = feed_untouched o obj rest r s f b in
      rw (feed-phase obj rest r) (
        ground (
          arith,
          any-holds o obj rest r p (w s' f' b') own,
          any_mono (holds r) (holds (feed objects get_deps obj rest r)) (get_deps o)
              (holds-feed obj rest r),
        ))

  elem-pending :
      (o : ℕ) (s : State)
      → elem o objects ≡ true
      → elem o s.started ≡ false
      → elem o s.finished ≡ false
      → elem o s.failed ≡ false
      → elem o (pending objects get_deps s) ≡ true
  unfolding pending
  elem-pending o s h a b c = ground (
    arith,
    elem-filter o
        (λ (x : ℕ). not (elem x s.started) && not (elem x s.finished) && not (elem x s.failed))
        objects,
  )

  Waits-close :
      (o : ℕ) (r : Run) → r.phase ≡ feeding [] → Waits o r → Waits o (close objects get_deps r)
  unfolding close
  Waits-close o r p w s f b = ground (
    arith,
    w s f b,
    any_mono (holds r) (holds (close objects get_deps r)) (get_deps o)
        (λ d h. ground (arith, tally-append (upstream_of d) r.queue (stop ∷ []))),
  )

  Waits-pending :
      (o : ℕ) (r : Run)
      → elem o objects ≡ true
      → r.phase ≡ feeding (pending objects get_deps r.state)
      → Waits o r
  Waits-pending o r inside p s f b = ground (arith, elem-pending o r.state inside s f b)

  -- A longer queue with the same upstream errors, and fewer threads, keep what is held back.
  Waits-queue :
      (o : ℕ) (r : Run) (threads : List ℕ) (queue : List Event) (phase : Phase)
      → elem o (looking r.phase) ≡ elem o (looking phase)
      → ((d : ℕ) → tally (upstream_of d) r.queue ≡ tally (upstream_of d) queue)
      → Waits o r
      → Waits o (record r { threads = threads; queue = queue; phase = phase })
  Waits-queue o r threads queue phase p q w s f b = ground (
    arith,
    w s f b,
    any_mono (holds r) (holds (record r { threads = threads; queue = queue; phase = phase }))
        (get_deps o) (λ d h. ground (arith, q d)),
  )

  elem_of_count : (o : ℕ) (xs ys : List ℕ) → count o ys ≡ count o xs → elem o xs ≡ elem o ys
  elem_of_count o xs ys same = elim (Bool-cases (elem o xs)) [
    | inl inside ↦ ground (arith, count-pos_of_elem o xs inside, count-zero_of_not-elem o ys)
    | inr outside ↦ ground (arith, count-zero_of_not-elem o xs outside, count-pos_of_elem o ys)
  ]

  Waits-Step :
      (o : ℕ) (r r' : Run)
      → elem o objects ≡ true
      → Step objects get_deps r r'
      → Waits o r
      → Waits o r'
  unfolding handle
  Waits-Step o r r' u (look obj rest p e) w = rw e (Waits-feed o obj rest r p w)
  Waits-Step o r r' u (finish_feed p e) w = rw e (Waits-close o r p w)
  Waits-Step o r r' u (take stop rest p q e) w =
      rw e (Waits-queue o r r.threads rest stopped (ground arith) (λ d. ground arith) w)
  Waits-Step o r r' u (take (done obj) rest p q e) w = Waits-pending o r' u (rw e)
  Waits-Step o r r' u (take (raised obj) rest p q e) w = Waits-pending o r' u (rw e)
  Waits-Step o r r' u (take (upstream obj) rest p q e) w = Waits-pending o r' u (rw e)
  Waits-Step o r r' u (reorder xs ys p same e) w = rw e (
      Waits-queue o r r.threads r.queue (feeding ys) (rw p (elem_of_count o xs ys (same o)))
        (λ d. refl) w)
  Waits-Step o r r' u (timeout p q e) w = Waits-pending o r' u (rw e)
  Waits-Step o r r' u (return obj h e) w = rw e (
      Waits-queue o r (remove obj r.threads) (r.queue ++ done obj ∷ []) r.phase refl
        (λ d. omega (arith, tally-append (upstream_of d) r.queue (done obj ∷ []))) w)
  Waits-Step o r r' u (throw obj h e) w = rw e (
      Waits-queue o r (remove obj r.threads) (r.queue ++ raised obj ∷ []) r.phase refl
        (λ d. omega (arith, tally-append (upstream_of d) r.queue (raised obj ∷ []))) w)

  Reach-Waits : (o : ℕ) {r : Run} → elem o objects ≡ true → Reach objects get_deps r → Waits o r
  unfolding start
  Reach-Waits o u here = Waits-pending o (start objects get_deps) u refl
  Reach-Waits o u (next {r = r} {r' = r'} reach step) =
      Waits-Step o r r' u step (Reach-Waits o u reach)

  -- At `results.get`, STOP is in the queue if all is done.
  abbrev Closes : Run → Type 0
  Closes r = r.phase ≡ waiting → is_done objects get_deps r.state ≡ true → 0 < tally stop_of r.queue

  Closes-Step : (r r' : Run) → Step objects get_deps r r' → Closes r → Closes r'
  unfolding handle close
  Closes-Step r r' (look obj rest p e) c = rw e (λ h. cc (feed-phase obj rest r))
  Closes-Step r r' (finish_feed p e) c =
      rw e (λ h k. ground (arith, tally-append stop_of r.queue (stop ∷ [])))
  Closes-Step r r' (take stop rest p q e) c = rw e (λ h. cc)
  Closes-Step r r' (take (done obj) rest p q e) c = rw e (λ h. cc)
  Closes-Step r r' (take (raised obj) rest p q e) c = rw e (λ h. cc)
  Closes-Step r r' (take (upstream obj) rest p q e) c = rw e (λ h. cc)
  Closes-Step r r' (reorder xs ys p same e) c = rw e (λ h. cc)
  Closes-Step r r' (timeout p q e) c = rw e (λ h. cc)
  Closes-Step r r' (return obj t e) c =
      rw e (λ h k. omega (arith, c h k, tally-append stop_of r.queue (done obj ∷ [])))
  Closes-Step r r' (throw obj t e) c =
      rw e (λ h k. omega (arith, c h k, tally-append stop_of r.queue (raised obj ∷ [])))

  Reach-Closes : {r : Run} → Reach objects get_deps r → Closes r
  unfolding start
  Reach-Closes here = λ h. cc
  Reach-Closes (next {r = r} {r' = r'} reach step) = Closes-Step r r' step (Reach-Closes reach)

  module _ (distinct : (o : ℕ) → count o objects ≤ 1) (rank : ℕ → ℕ)
      (ranked : (o d : ℕ)
        → elem d (get_deps o) ≡ true
        → elem d objects ≡ true
        → rank d < rank o) where
    -- With nothing in the queue and no thread left, what was started has finished or failed.
    settled :
        (o : ℕ) (r : Run)
        → Reach objects get_deps r
        → r.queue ≡ []
        → r.threads ≡ []
        → elem o r.state.started ≡ true
        → (elem o r.state.finished || elem o r.state.failed) ≡ true
    settled o r reach q t s =
        let account = Reach-Account objects get_deps o (distinct o) reach in ground arith

    -- Every object has then finished or failed: one that has not waits for one of lower rank.
    processed :
        (bound o : ℕ) (r : Run)
        → Reach objects get_deps r
        → r.phase ≡ waiting
        → r.queue ≡ []
        → r.threads ≡ []
        → elem o objects ≡ true
        → rank o < bound
        → (elem o r.state.finished || elem o r.state.failed) ≡ true
    processed zero o r reach p q t u b = absurd (omega arith)
    processed (suc bound) o r reach p q t u b =
        elim (Bool-cases (elem o r.state.finished || elem o r.state.failed)) [
          | inl over ↦ over
          | inr neither ↦ elim (Bool-cases (elem o r.state.started)) [
            | inl begun ↦ settled o r reach q t begun
            | inr untouched ↦
                let held : any (holds r) (get_deps o) ≡ true =
                  ground (arith, Reach-Waits o u reach untouched) in
                let (d, dep, back) = any_exists (holds r) (get_deps o) held in
                let inside : elem d objects ≡ true = ground arith in
                let lower = ranked o d dep inside in
                let over = processed bound d r reach p q t inside (omega arith) in
                absurd (ground arith)
          ]
        ]

    within_sets :
        (r : Run)
        → Reach objects get_deps r
        → r.phase ≡ waiting
        → r.queue ≡ []
        → r.threads ≡ []
        → (o : ℕ) → count o objects ≤ count o (r.state.finished ++ r.state.failed)
    within_sets r reach p q t o =
        let closed = Reach-IsClosed objects get_deps reach in
        elim (Bool-cases (elem o objects)) [
          | inl inside ↦
              let over = processed (suc (rank o)) o r reach p q t inside (omega arith) in
              ground (
                arith,
                distinct o,
                count-append o r.state.finished r.state.failed,
                closed.finished_distinct o,
                closed.failed_distinct o,
              )
          | inr outside ↦ omega (arith, count-zero_of_not-elem o objects outside)
        ]

    -- The loop never waits with nothing to come: over distinct objects whose dependencies among
    -- them have no cycle (they rank lower), the main thread is never at `results.get` with an
    -- empty queue and no producer thread running.
    pub no_deadlock :
        (r : Run) → Reach objects get_deps r → r.phase ≡ waiting → r.queue ≡ [] → ¬ (r.threads ≡ [])
    no_deadlock r reach p q t =
        let sent = Reach-Closes reach p in
        let enough =
          length-le_of_count objects (r.state.finished ++ r.state.failed)
            (within_sets r reach p q t) in
        absurd (unfold is_done in ground (arith, length-append r.state.finished r.state.failed))
