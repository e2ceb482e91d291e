-- ===== src/Service/Calls.antt =====
-- Rules for what a method has called: a precondition on the calls so far, a postcondition on them
-- where it returns, and one where it raises.
use docke_compose_customize.Prelude.{
  Bool, true, false, ◌||◌, List, [], ◌∷◌, ◌++◌, ◌≡◌, refl, ap, any, all, arith, if◌then◌else◌,
  Option, none, some,
}
use docke_compose_customize.Result.{Error, Result, ok, err}
use docke_compose_customize.Service.Client.{
  Call, Daemon, M, pure, continue, ◌>>=◌, for_each, call, answered,
}

abbrev pub is_removal : Call → Bool
is_removal (Call.remove id) = true
is_removal c = false

-- No container was removed, and for each requirement there was a call that meets it.
abbrev pub Kept : List (Call → Bool) → List Call → Type 0
Kept required calls = (any is_removal calls ≡ false) × (all (λ p. any p calls) required ≡ true)

append_assoc : (xs ys zs : List Call) → (xs ++ ys) ++ zs ≡ xs ++ (ys ++ zs)
append_assoc [] ys zs = refl
append_assoc (x ∷ xs) ys zs = ap (λ rest. x ∷ rest) (append_assoc xs ys zs)

any-append : (p : Call → Bool) (xs ys : List Call) → any p (xs ++ ys) ≡ (any p xs || any p ys)
any-append p [] ys = refl
any-append p (x ∷ xs) ys = ground (arith, any-append p xs ys)

required_append :
    (required : List (Call → Bool)) (calls more : List Call)
    → all (λ p. any p calls) required ≡ true
    → all (λ p. any p (calls ++ more)) required ≡ true
required_append [] calls more h = refl
required_append (p ∷ ps) calls more h =
    ground (arith, required_append ps calls more, any-append p calls more)

pub Kept-call :
    (required : List (Call → Bool)) (calls : List Call) (c : Call)
    → is_removal c ≡ false
    → Kept required calls
    → Kept required (calls ++ c ∷ [])
Kept-call required calls c h k = (
  ground (arith, any-append is_removal calls (c ∷ []), h, k.0),
  required_append required calls (c ∷ []) k.1,
)

pub Kept-made :
    (required : List (Call → Bool)) (p : Call → Bool) (calls : List Call) (c : Call)
    → is_removal c ≡ false
    → p c ≡ true
    → Kept required calls
    → Kept (p ∷ required) (calls ++ c ∷ [])
Kept-made required p calls c h met k =
    let kept = Kept-call required calls c h k in
    (kept.0, ground (arith, any-append p calls (c ∷ []), met, kept.1))

-- The log that the method found, and what it may raise after.
module _ (log : List Call) (E : List Call → Type 0) where
  abbrev pub Post : {A : Type 0} → (A → List Call → Type 0) → Result A → List Call → Type 0
  Post Q (ok a) after = (calls : List Call) × (after ≡ log ++ calls) × Q a calls
  Post Q (err e) after = (calls : List Call) × (after ≡ log ++ calls) × E calls

  abbrev pub Triple : {A : Type 0} → (List Call → Type 0) → (A → List Call → Type 0) → M A → Type 0
  Triple I Q m = (calls : List Call) → I calls → Post Q (m (log ++ calls)).0 (m (log ++ calls)).1

  pub Triple-pure :
      {A : Type 0} (I : List Call → Type 0) (Q : A → List Call → Type 0) (a : A)
      → ((calls : List Call) → I calls → Q a calls)
      → Triple I Q (pure a)
  Triple-pure I Q a h calls i = (calls, refl, h calls i)

  Post-continue :
      {A B : Type 0} (R : A → List Call → Type 0) (Q : B → List Call → Type 0) (r : Result A)
      (after : List Call) (f : A → M B)
      → Post R r after
      → ((a : A) → Triple (R a) Q (f a))
      → Post Q (continue r f after).0 (continue r f after).1
  Post-continue R Q (ok a) after f (calls, same, held) k = rw same (k a calls held)
  Post-continue R Q (err e) after f h k = h

  pub Triple-bind :
      {A B : Type 0} (I : List Call → Type 0) (R : A → List Call → Type 0)
      (Q : B → List Call → Type 0) (m : M A) (f : A → M B)
      → Triple I R m
      → ((a : A) → Triple (R a) Q (f a))
      → Triple I Q (m >>= f)
  Triple-bind I R Q m f h k calls i =
      Post-continue R Q (m (log ++ calls)).0 (m (log ++ calls)).1 f (h calls i) k

  pub Triple-if :
      {A : Type 0} (I : List Call → Type 0) (Q : A → List Call → Type 0) (b : Bool) (m n : M A)
      → Triple I Q m
      → Triple I Q n
      → Triple I Q (if b then m else n)
  Triple-if I Q true m n h k = h
  Triple-if I Q false m n h k = k

  Post-answered :
      (daemon : Daemon) (Q : Unit {0} → List Call → Type 0) (answer : Option Error)
      (calls after : List Call)
      → after ≡ log ++ calls
      → Q tt calls
      → E calls
      → Post Q (answered daemon answer after).0 (answered daemon answer after).1
  Post-answered daemon Q none calls after same h k = (calls, same, h)
  Post-answered daemon Q (some e) calls after same h k = (calls, same, k)

  pub Triple-call :
      (daemon : Daemon) (I : List Call → Type 0) (Q : Unit {0} → List Call → Type 0) (c : Call)
      → ((calls : List Call) → I calls → Q tt (calls ++ c ∷ []))
      → ((calls : List Call) → I calls → E (calls ++ c ∷ []))
      → Triple I Q (call daemon c)
  unfolding call
  Triple-call daemon I Q c h k calls i =
      Post-answered daemon Q (daemon.fails ((log ++ calls) ++ c ∷ [])) (calls ++ c ∷ [])
        ((log ++ calls) ++ c ∷ []) (append_assoc log calls (c ∷ [])) (h calls i) (k calls i)

  -- Methods that remove no container, where any call but a removal may be the last.
  module _ (daemon : Daemon) (kept : (calls : List Call) → any is_removal calls ≡ false → E calls)
      (required : List (Call → Bool)) where
    abbrev pub Quiet : {A : Type 0} → M A → Type 0
    Quiet m = Triple (Kept required) (λ _. Kept required) m

    pub Quiet-call : (c : Call) → is_removal c ≡ false → Quiet (call daemon c)
    Quiet-call c h =
        Triple-call daemon (Kept required) (λ _. Kept required) c
          (λ calls. Kept-call required calls c h)
          (λ calls i. kept (calls ++ c ∷ []) (Kept-call required calls c h i).0)

    pub Quiet-pure : {A : Type 0} (a : A) → Quiet (pure a)
    Quiet-pure a = Triple-pure (Kept required) (λ _. Kept required) a (λ calls i. i)

    pub Quiet-bind :
        {A B : Type 0} (m : M A) (f : A → M B) → Quiet m → ((a : A) → Quiet (f a)) → Quiet (m >>= f)
    Quiet-bind m f h k =
        Triple-bind (Kept required) (λ _. Kept required) (λ _. Kept required) m f h k

    pub Quiet-if :
        {A : Type 0} (b : Bool) (m n : M A) → Quiet m → Quiet n → Quiet (if b then m else n)
    Quiet-if b m n h k = Triple-if (Kept required) (λ _. Kept required) b m n h k

    pub Quiet-for_each :
        {A : Type 0} (f : A → M (Unit {0})) (xs : List A)
        → ((a : A) → Quiet (f a))
        → Quiet (for_each f xs)
    Quiet-for_each f [] h = Quiet-pure tt
    Quiet-for_each f (x ∷ xs) h =
        Quiet-bind (f x) (λ _. for_each f xs) (h x) (λ _. Quiet-for_each f xs h)
