-- ===== src/Service/Removal.antt =====
-- When recreating a container removes the old one.
use docke_compose_customize.Prelude.{
  Bool, true, false, List, some, [], ◌∷◌, ◌++◌, ◌≡◌, refl, inl, inr, any, string_eq, join, ap,
  subst, eq_refl, if◌then◌else◌,
}
use docke_compose_customize.Container.{Container}
use docke_compose_customize.Service.Client.{Call, Daemon, M, pure, ◌>>=◌, ◌>>◌, for_each, call}
use docke_compose_customize.Service.Images.{no_action, inspect, ensure_image_exists}
use docke_compose_customize.Service.Recreate.{
  ServiceState, list_containers, short_id, rename_to_tmp_name, attach_log_stream, connect_network,
  start_container, create_new, recreate_container,
}
use docke_compose_customize.Service.Calls.{
  is_removal, Kept, Post, Triple, Triple-pure, Triple-bind, Triple-call, Quiet-pure, Quiet-if,
  Quiet-for_each,
}
use docke_compose_customize.Service.Calm.{
  creates, starts, required, Removed, Untouched, calm_call, attach-Calm, connect-Calm, inspect-Calm,
  ensure-Calm, then_calm, made,
}

module _ (daemon : Daemon) (s : ServiceState) (log : List Call) (c : Container)
    (start_new : Bool) where
  abbrev E : List Call → Type 0
  E = Untouched c.id s.container_name start_new

  abbrev kept : (calls : List Call) → any is_removal calls ≡ false → E calls
  kept calls h = inl h

  abbrev creation : List (Call → Bool)
  creation = creates s.container_name ∷ []

  returned :
      {A : Type 0} (requirements : List (Call → Bool)) (a : A)
      → Triple log E (Kept requirements) (λ _. Kept requirements) (pure a)
  returned requirements a = Quiet-pure log E daemon kept requirements a

  abbrev created : M Container
  created = call daemon (Call.create_container s.container_name) >>= λ _.
      ((λ at. pure (daemon.created at) at) >>= λ new.
      (call daemon (Call.inspect_container new.id) >> pure new))

  create-made : Triple log E (Kept []) (λ _. Kept creation) (create_new daemon s (some c))
  unfolding create_new
  create-made =
      then_calm daemon s log c start_new [] (λ _. Kept creation)
        (ensure_image_exists daemon s.image_options no_action)
        (λ _.
          call daemon (Call.inspect_image (s.image_of c))
          >> (inspect daemon s.image_options
              >> (for_each (list_containers daemon) s.option_sources >> created)))
        (ensure-Calm daemon s log c start_new [] s.image_options)
        (λ _.
          then_calm daemon s log c start_new [] (λ _. Kept creation)
            (call daemon (Call.inspect_image (s.image_of c)))
            (λ _.
              inspect daemon s.image_options
              >> (for_each (list_containers daemon) s.option_sources >> created))
            (calm_call daemon s log c start_new [] (Call.inspect_image (s.image_of c)) refl)
            (λ _.
              then_calm daemon s log c start_new [] (λ _. Kept creation)
                (inspect daemon s.image_options)
                (λ _. for_each (list_containers daemon) s.option_sources >> created)
                (inspect-Calm daemon s log c start_new [] s.image_options)
                (λ _.
                  then_calm daemon s log c start_new [] (λ _. Kept creation)
                    (for_each (list_containers daemon) s.option_sources) (λ _. created)
                    (Quiet-for_each log E daemon kept [] (list_containers daemon) s.option_sources
                      (λ service.
                        calm_call daemon s log c start_new [] (Call.list_containers service) refl))
                    (λ _.
                      Triple-bind log E (Kept []) (λ _. Kept creation) (λ _. Kept creation)
                        (call daemon (Call.create_container s.container_name))
                        (λ _.
                          ((λ at. pure (daemon.created at) at) >>= λ new.
                          (call daemon (Call.inspect_container new.id) >> pure new)))
                        (made daemon s log c start_new [] (creates s.container_name)
                          (Call.create_container s.container_name) refl (eq_refl s.container_name))
                        (λ _.
                          then_calm daemon s log c start_new creation (λ _. Kept creation)
                            (λ at. pure (daemon.created at) at)
                            (λ new. call daemon (Call.inspect_container new.id) >> pure new)
                            (λ calls i. (calls, refl, i))
                            (λ new.
                              then_calm daemon s log c start_new creation (λ _. Kept creation)
                                (call daemon (Call.inspect_container new.id)) (λ _. pure new)
                                (calm_call daemon s log c start_new creation
                                  (Call.inspect_container new.id) refl)
                                (λ _. returned creation new)))))))

  start-made :
      (new : Container)
      → Triple log E
          (Kept creation)
          (λ _. Kept (starts new.id ∷ creation))
          (start_container daemon s new)
  unfolding start_container
  start-made new =
      then_calm daemon s log c start_new creation (λ _. Kept (starts new.id ∷ creation))
        (for_each (connect_network daemon s new) s.networks)
        (λ _. call daemon (Call.start new.id) >> pure new)
        (Quiet-for_each log E daemon kept creation (connect_network daemon s new) s.networks
          (connect-Calm daemon s log c start_new creation new))
        (λ _.
          Triple-bind log E (Kept creation) (λ _. Kept (starts new.id ∷ creation))
            (λ _. Kept (starts new.id ∷ creation)) (call daemon (Call.start new.id)) (λ _. pure new)
            (made daemon s log c start_new creation (starts new.id) (Call.start new.id) refl
              (eq_refl new.id))
            (λ _. returned (starts new.id ∷ creation) new))

  start_if-made :
      (b : Bool) (new : Container)
      → Triple log E
          (Kept creation)
          (λ _. Kept (required s.container_name b new.id))
          (if b then (start_container daemon s new >> pure tt) else pure tt)
  start_if-made true new =
      Triple-bind log E (Kept creation) (λ _. Kept (starts new.id ∷ creation))
        (λ _. Kept (starts new.id ∷ creation)) (start_container daemon s new) (λ _. pure tt)
        (start-made new) (λ _. returned (starts new.id ∷ creation) tt)
  start_if-made false new = returned creation tt

  abbrev Done : Container → List Call → Type 0
  Done new = Removed c.id s.container_name start_new new.id

  remove-made :
      (new : Container)
      → Triple log E
          (Kept (required s.container_name start_new new.id))
          (λ _. Done new)
          (call daemon (Call.remove c.id))
  remove-made new =
      Triple-call log E daemon (Kept (required s.container_name start_new new.id)) (λ _. Done new)
        (Call.remove c.id) (λ calls i. (calls, refl, i)) (λ calls i. inr (new.id, (calls, refl, i)))

  abbrev finish : Container → M Container
  finish new = do
    if start_new then (start_container daemon s new >> pure tt) else pure tt
    call daemon (Call.remove c.id)
    pure new

  finish-made : (new : Container) → Triple log E (Kept creation) Done (finish new)
  finish-made new =
      let requirements = required s.container_name start_new new.id in
      Triple-bind log E (Kept creation) (λ _. Kept requirements) Done
        (if start_new then (start_container daemon s new >> pure tt) else pure tt)
        (λ _. call daemon (Call.remove c.id) >> pure new) (start_if-made start_new new)
        (λ _.
          Triple-bind log E (Kept requirements) (λ _. Done new) Done
            (call daemon (Call.remove c.id)) (λ _. pure new) (remove-made new)
            (λ _. Triple-pure log E (Done new) Done new (λ calls i. i)))

  attached : Bool → Container → M Unit
  attached b new = if b then attach_log_stream daemon s new else pure tt

  recreate-made :
      (attach_logs : Bool)
      → Triple log E (Kept []) Done (recreate_container daemon s attach_logs start_new c)
  unfolding recreate_container rename_to_tmp_name attached
  recreate-made attach_logs =
      then_calm daemon s log c start_new [] Done (call daemon (Call.stop c.id))
        (λ _.
          rename_to_tmp_name daemon s c
          >> (create_new daemon s (some c) >>= λ new. (attached attach_logs new >> finish new)))
        (calm_call daemon s log c start_new [] (Call.stop c.id) refl)
        (λ _.
          then_calm daemon s log c start_new [] Done (rename_to_tmp_name daemon s c)
            (λ _. create_new daemon s (some c) >>= λ new. (attached attach_logs new >> finish new))
            (calm_call daemon s log c start_new []
              (Call.rename c.id (join "_" (short_id c ∷ c.name ∷ []))) refl)
            (λ _.
              Triple-bind log E (Kept []) (λ _. Kept creation) Done (create_new daemon s (some c))
                (λ new. attached attach_logs new >> finish new) create-made
                (λ new.
                  then_calm daemon s log c start_new creation Done (attached attach_logs new)
                    (λ _. finish new)
                    (Quiet-if log E daemon kept creation attach_logs
                      (attach_log_stream daemon s new) (pure tt)
                      (attach-Calm daemon s log c start_new creation new) (returned creation tt))
                    (λ _. finish-made new))))

append_nil : (log : List Call) → log ++ [] ≡ log
append_nil [] = refl
append_nil (x ∷ xs) = ap (λ rest. x ∷ rest) (append_nil xs)

-- A container that is recreated is removed by the last call, after the new container was created
-- and, where `start_new` is set, started; no other call removes a container. Where an exception is
-- raised, nothing was removed or the removal itself raised it. The calls that are meant are those
-- made daemon s log c start_new after `log`, and they hold for every answer of the Docker client.
pub recreate_container_lem :
    (daemon : Daemon) (s : ServiceState) (log : List Call) (attach_logs start_new : Bool)
    (c : Container)
    → Post log
        (Untouched c.id s.container_name start_new)
        (λ new. Removed c.id s.container_name start_new new.id)
        (recreate_container daemon s attach_logs start_new c log).0
        (recreate_container daemon s attach_logs start_new c log).1
recreate_container_lem daemon s log attach_logs start_new c =
    subst
      (λ at.
        Post log (Untouched c.id s.container_name start_new)
          (λ new. Removed c.id s.container_name start_new new.id)
          (recreate_container daemon s attach_logs start_new c at).0
          (recreate_container daemon s attach_logs start_new c at).1)
      (append_nil log) (recreate-made daemon s log c start_new attach_logs [] (refl, refl))
