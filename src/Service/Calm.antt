-- ===== src/Service/Calm.antt =====
-- The methods that recreating a container calls, of which none removes a container.
use docke_compose_customize.Prelude.{
  String, Bool, true, false, List, [], ◌∷◌, ◌++◌, ◌≡◌, refl, ◌⊎◌, inl, any, ◌==◌, string_eq,
  is_empty, if◌then◌else◌, Option, none, some, elem, not, ◌&&◌,
}
use docke_compose_customize.Result.{Error, Result, ok, err}
use docke_compose_customize.Container.{Container, get, has_api_logs}
use docke_compose_customize.Service.Client.{Call, Daemon, M, pure, raise, ◌>>=◌, ◌>>◌, call}
use docke_compose_customize.Service.Images.{
  ImageOptions, no_action, inspect, pull, build, built, provide, image_id, pull_image, pull_option,
  parse_repository_tag, is_no_such_image, is_force, ensure_image_exists, image_name,
}
use docke_compose_customize.Service.Recreate.{
  ServiceState, short_id, attach_log_stream, reconnect, connect_again, connect_network,
}
use docke_compose_customize.Service.Calls.{
  is_removal, Kept, Kept-call, Kept-made, Post, Triple, Triple-bind, Triple-call, Quiet, Quiet-call,
  Quiet-pure, Quiet-bind, Quiet-if,
}

abbrev pub creates : String → Call → Bool
creates name (Call.create_container n) = n == name
creates name c = false

abbrev pub starts : String → Call → Bool
starts id (Call.start i) = i == id
starts id c = false

abbrev pub required : String → Bool → String → List (Call → Bool)
required name true id = starts id ∷ creates name ∷ []
required name false id = creates name ∷ []

-- The last call removes `old`, no other call is a removal, and before it the container `new` was
-- created and, where that is wanted, started.
abbrev pub Removed : String → String → Bool → String → List Call → Type 0
Removed old name start_new new calls =
    (before : List Call) × (calls ≡ before ++ Call.remove old ∷ [])
    × Kept (required name start_new new) before

-- what holds where an exception is raised: nothing is removed, unless the removal itself raises
abbrev pub Untouched : String → String → Bool → List Call → Type 0
Untouched old name start_new calls =
    (any is_removal calls ≡ false) ⊎ ((new : String) × Removed old name start_new new calls)

module _ (daemon : Daemon) (s : ServiceState) (log : List Call) (c : Container)
    (start_new : Bool) where
  abbrev pub E : List Call → Type 0
  E = Untouched c.id s.container_name start_new

  abbrev pub kept : (calls : List Call) → any is_removal calls ≡ false → E calls
  kept calls h = inl h

  module _ (requirements : List (Call → Bool)) where
    abbrev pub Calm : {A : Type 0} → M A → Type 0
    Calm m = Quiet log E daemon kept requirements m

    abbrev pub calm_call : (d : Call) → is_removal d ≡ false → Calm (call daemon d)
    calm_call = Quiet-call log E daemon kept requirements

    pub attach-Calm : (d : Container) → Calm (attach_log_stream daemon s d)
    unfolding attach_log_stream
    attach-Calm d =
        Quiet-if log E daemon kept requirements (has_api_logs d) (call daemon (Call.attach d.id))
          (pure tt) (calm_call (Call.attach d.id) refl)
          (Quiet-pure log E daemon kept requirements tt)

    reconnect-Calm : (d : Container) (network : String) → Calm (reconnect daemon s d network)
    reconnect-Calm d network = calm_call (Call.connect d.id network) refl

    connect_again-Calm :
        (d : Container) (network : String) (aliases : Option (List String))
        → Calm (connect_again daemon s d network aliases)
    connect_again-Calm d network none = reconnect-Calm d network
    connect_again-Calm d network (some aliases) =
        Quiet-if log E daemon kept requirements (elem (short_id d) aliases) (pure tt)
          (call daemon (Call.disconnect d.id network) >> reconnect daemon s d network)
          (Quiet-pure log E daemon kept requirements tt)
          (Quiet-bind log E daemon kept requirements (call daemon (Call.disconnect d.id network))
            (λ _. reconnect daemon s d network) (calm_call (Call.disconnect d.id network) refl)
            (λ _. reconnect-Calm d network))

    pub connect-Calm :
        (d : Container) (network : String) → Calm (connect_network daemon s d network)
    unfolding connect_network
    connect-Calm d network = connect_again-Calm d network (get network (s.connected d))

    pub inspect-Calm : (options : ImageOptions) → Calm (inspect daemon options)
    unfolding inspect
    inspect-Calm options = calm_call (Call.inspect_image (image_name options)) refl

    image_id-Post :
        (options : ImageOptions) (id : Option String) (r : Result (Unit {0})) (after : List Call)
        → Post log E (λ _. Kept requirements) r after
        → Post log E (λ (_ : String). Kept requirements) (image_id daemon options r id) after
    image_id-Post options none (ok t) after (calls, same, held) = (calls, same, kept calls held.0)
    image_id-Post options (some id) (ok t) after h = h
    image_id-Post options id (err e) after h = h

    build-Calm : (options : ImageOptions) → Calm (build daemon options)
    unfolding build
    build-Calm options calls i =
        let c = Call.build (image_name options) in
        image_id-Post options (daemon.built (call daemon c (log ++ calls)).1)
          (call daemon c (log ++ calls)).0 (call daemon c (log ++ calls)).1
          (calm_call c refl calls i)

    built-Calm : (options : ImageOptions) → Calm (built daemon options)
    unfolding built
    built-Calm options =
        Quiet-bind log E daemon kept requirements (build daemon options) (λ _. pure tt)
          (build-Calm options) (λ _. Quiet-pure log E daemon kept requirements tt)

    pull_image-Calm :
        (options : ImageOptions) (name : String × String × String)
        → Calm (pull_image daemon options name)
    pull_image-Calm options (repo, tag, separator) =
        calm_call (Call.pull repo (if is_empty tag then "latest" else tag)) refl

    pull-Calm :
        (options : ImageOptions) (image : Option String)
        → Calm (pull_option daemon options false image)
    pull-Calm options none = Quiet-pure log E daemon kept requirements tt
    pull-Calm options (some image) = pull_image-Calm options (parse_repository_tag image)

    raise-Calm : (e : Error) → Calm (raise {A = Unit {0}} e)
    raise-Calm e calls i = (calls, refl, kept calls i.0)

    provide-Calm :
        (options : ImageOptions) (e : Error) → Calm (provide daemon options no_action (err e))
    unfolding pull
    provide-Calm options e =
        Quiet-if log E daemon kept requirements (is_no_such_image e)
          (if not options.has_build then pull daemon options false else built daemon options)
          (raise e)
          (Quiet-if log E daemon kept requirements (not options.has_build)
            (pull daemon options false) (built daemon options) (pull-Calm options options.image)
            (built-Calm options))
          (raise-Calm e)

    provide-Post :
        (options : ImageOptions) (r : Result (Unit {0})) (after : List Call)
        → Post log (Kept requirements) (λ _. Kept requirements) r after
        → Post log E
            (λ _. Kept requirements)
            (provide daemon options no_action r after).0
            (provide daemon options no_action r after).1
    provide-Post options (ok t) after h = h
    provide-Post options (err e) after (calls, same, held) =
        rw same (provide-Calm options e calls held)

    pub ensure-Calm : (options : ImageOptions) → Calm (ensure_image_exists daemon options no_action)
    unfolding ensure_image_exists inspect
    ensure-Calm options =
        Quiet-if log E daemon kept requirements (options.has_build && is_force no_action)
          (built daemon options)
          (λ at.
            provide daemon options no_action (inspect daemon options at).0
              (inspect daemon options at).1)
          (built-Calm options)
          (λ calls i.
            let c = Call.inspect_image (image_name options) in
            provide-Post options (call daemon c (log ++ calls)).0 (call daemon c (log ++ calls)).1 (
              Triple-call log (Kept requirements) daemon (Kept requirements)
                (λ _. Kept requirements) c (λ made. Kept-call requirements made c refl)
                (λ made. Kept-call requirements made c refl) calls i))

    pub then_calm :
        {A B : Type 0} (Q : B → List Call → Type 0) (m : M A) (f : A → M B)
        → Calm m
        → ((a : A) → Triple log E (Kept requirements) Q (f a))
        → Triple log E (Kept requirements) Q (m >>= f)
    then_calm Q m f h k = Triple-bind log E (Kept requirements) (λ _. Kept requirements) Q m f h k

    pub made :
        (p : Call → Bool) (d : Call)
        → is_removal d ≡ false
        → p d ≡ true
        → Triple log E (Kept requirements) (λ _. Kept (p ∷ requirements)) (call daemon d)
    made p d h met =
        Triple-call log E daemon (Kept requirements) (λ _. Kept (p ∷ requirements)) d
          (λ calls. Kept-made requirements p calls d h met)
          (λ calls i. kept (calls ++ d ∷ []) (Kept-call requirements calls d h i).0)
