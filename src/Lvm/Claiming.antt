-- ===== src/Lvm/Claiming.antt =====
-- The devices that CreateVG of pkg/common/lvm/lvm.go hands to pvcreate.
use kubernetes_local_volume.Base.{
  subst, sym, ◌∙◌, not, arith, ◌≡◌, ◌⊎◌, inl, inr, refl, ◌<>◌, String, Bool, true, false, List, [],
  ◌∷◌, ◌++◌, All, if◌then◌else◌, str_eq, trim_space,
}
use kubernetes_local_volume.Fault.{Error, Outcome, ok, fail, panic, got, refused, ok-injective}
use kubernetes_local_volume.Host.{
  Host, History, Event, ran, pure, continue, reply_of, run, is_file_existing,
}
use kubernetes_local_volume.Host.Commands.{
  Command, pvcreate, vgcreate, pvdisplay, count_mounts, count_vg, count_vg_pvs,
}
use kubernetes_local_volume.Host.Laws.{
  Keeps, Ends, bind, next, bind-Ends, then-Ends, carry-Ends, if-Ends, pure-Ends, pure-Keeps,
  lift-Keeps, if-Keeps,
}
use kubernetes_local_volume.Types.{device_chars}
use kubernetes_local_volume.Lvm.{
  device_path_prefix, is_mounted, unused, is_available, device_loop, get_device_list, count_pvs,
  make_vg, create_vg,
}

negated_lem : (b : Bool) → not b ≡ false → b ≡ true
negated_lem b e = ground arith

module _ (H : Host) where
  -- The count of a device's mounts failed, or was "0".
  abbrev pub NoMount : Outcome String → Type 0
  NoMount (ok text) = str_eq (trim_space text) "0" ≡ true
  NoMount (fail x) = Unit {0}
  NoMount panic = ⊥

  -- The last call counted the mounts of the device, and it is not mounted.
  abbrev pub Unmounted : String → History → Type 0
  Unmounted device h =
      (before : History) × (h ≡ ran (count_mounts device) ∷ before)
      × NoMount (run H (count_mounts device) before).0

  -- At some point of the history the device was found not mounted, and directly behind that `pvdisplay`
  -- failed at it.
  abbrev pub Unused : String → History → Type 0
  Unused device [] = ⊥
  Unused device (e ∷ h) =
      ((e ≡ ran (pvdisplay device))
        × ((x : Error) × ((run H (pvdisplay device) h).0 ≡ fail x))
        × Unmounted device h)
      ⊎ Unused device h

  abbrev pub Created : Event → History → Type 0
  Created (ran (pvcreate devices)) h = All (λ d. Unused d h) devices
  Created _ h = Unit {0}

  -- Every run of pvcreate in the history is on unused devices.
  abbrev pub CreatesUnused : History → Type 0
  CreatesUnused [] = Unit {0}
  CreatesUnused (e ∷ h) = Created e h × CreatesUnused h

  -- The loop's invariant: the devices taken so far are unused.
  abbrev Taken : List String → History → Type 0
  Taken devices h = CreatesUnused h × All (λ d. Unused d h) devices

  later :
      (devices : List String) (e : Event) (h : History)
      → All (λ d. Unused d h) devices
      → All (λ d. Unused d (e ∷ h)) devices
  later [] e h a = tt
  later (d ∷ ds) e h (u, us) = (inr u, later ds e h us)

  one_more :
      (devices : List String) (d : String) (h : History)
      → All (λ d. Unused d h) devices
      → Unused d h
      → All (λ d. Unused d h) (devices ++ d ∷ [])
  one_more [] d h a u = (u, tt)
  one_more (c ∷ cs) d h (v, vs) u = (v, one_more cs d h vs u)

  module _ (devices : List String) where
    is_file_existing-Keeps : (d : String) → Keeps (Taken devices) (is_file_existing H d)
    unfolding is_file_existing
    is_file_existing-Keeps d = record { keeps = λ h (g, a). ((tt, g), later devices _ h a) }

    abbrev Answers : String → Bool → History → Type 0
    Answers d b h = b ≡ true → Unused d h

    mount_answer :
        (d : String) (h : History) (o : Outcome String)
        → (run H (count_mounts d) h).0 ≡ o
        → Taken devices h
        → let done = continue (reply_of o) (ran (count_mounts d) ∷ h) (λ out.
          pure (elim out [ refused _ ↦ false | got text ↦ not (str_eq (trim_space text) "0") ])) in
          Taken devices done.1 × ((b : Bool) → done.0 ≡ ok b → b ≡ false → Unmounted d done.1)
    mount_answer d h (ok s) e (g, a) = (
      ((tt, g), later devices _ h a),
      λ b r free. (
        h,
        refl,
        subst NoMount (sym e) (negated_lem (str_eq (trim_space s) "0") (ok-injective r ∙ free)),
      ),
    )
    mount_answer d h (fail x) e (g, a) =
        (((tt, g), later devices _ h a), λ b r free. (h, refl, subst NoMount (sym e) tt))
    mount_answer d h panic e (g, a) = (((tt, g), later devices _ h a), λ b r. cc)

    is_mounted-Ends :
        (d : String) → Ends (Taken devices) (λ b h. b ≡ false → Unmounted d h) (is_mounted H d)
    unfolding is_mounted run
    is_mounted-Ends d = record { ends = λ h t. mount_answer d h _ refl t }

    unused_answer :
        (d : String) (h : History) (o : Outcome String)
        → (run H (pvdisplay d) h).0 ≡ o
        → Unmounted d h
        → Taken devices h
        → let done =
            continue
              (reply_of o)
              (ran (pvdisplay d) ∷ h)
              (λ shown. pure (elim shown [ refused _ ↦ true | got _ ↦ false ])) in
          Taken devices done.1 × ((b : Bool) → done.0 ≡ ok b → Answers d b done.1)
    unused_answer d h (ok s) e free (g, a) = (((tt, g), later devices _ h a), λ b r t. cc)
    unused_answer d h (fail x) e free (g, a) =
        (((tt, g), later devices _ h a), λ b r t. inl (refl, (x, e), free))
    unused_answer d h panic e free (g, a) = (((tt, g), later devices _ h a), λ b r. cc)

    free_answer :
        (d : String) (mounted : Bool) (h : History)
        → Taken devices h
        → (mounted ≡ false → Unmounted d h)
        → let done = (if mounted then pure false else unused H d) h in
          Taken devices done.1 × ((b : Bool) → done.0 ≡ ok b → Answers d b done.1)
    unfolding unused run
    free_answer d true h t free = (t, λ b r a. cc)
    free_answer d false h t free = unused_answer d h _ refl (free refl) t

    is_available-Ends : (d : String) → Ends (Taken devices) (Answers d) (is_available H d)
    unfolding is_available
    is_available-Ends d = then-Ends (is_file_existing H d) (is_file_existing-Keeps d) λ exists.
        if-Ends exists (carry-Ends (is_mounted H d) (is_mounted-Ends d) (free_answer d))
          (pure-Ends λ h t. cc)

  -- What a loop leaves: the devices that it returns are unused.
  abbrev Left : Outcome (List String) × History → Type 0
  Left (o, h) = CreatesUnused h × ((ds : List String) → o ≡ ok ds → All (λ d. Unused d h) ds)

  one_device :
      (result chars : List String) (d : String) (o : Outcome Bool) (h : History)
      → CreatesUnused h × ((b : Bool) → o ≡ ok b → Answers result d b h)
      → All (λ c. Unused c h) result
      → ((taken : List String) (h1 : History)
          → Taken taken h1
          → Left (device_loop H taken chars h1))
      → Left (continue o h (λ a. device_loop H (if a then result ++ d ∷ [] else result) chars))
  one_device result chars d (ok true) h (g, u) a rest =
      rest (result ++ d ∷ []) h (g, one_more result d h a (u true refl refl))
  one_device result chars d (ok false) h (g, u) a rest = rest result h (g, a)
  one_device result chars d (fail x) h (g, u) a rest = (g, λ ds e. cc)
  one_device result chars d panic h (g, u) a rest = (g, λ ds e. cc)

  device_loop-Left :
      (chars result : List String) (h : History)
      → Taken result h
      → Left (device_loop H result chars h)
  unfolding device_loop
  device_loop-Left [] result h (g, a) =
      (g, λ ds e. subst (λ c. All (λ d. Unused d h) c) (ok-injective e) a)
  device_loop-Left (c ∷ cs) result h t =
      let ((g, a), u) = (is_available-Ends result (device_path_prefix <> c)).ends h t in
      one_device result cs (device_path_prefix <> c) _ _ (g, u) a
        (λ taken h1 t1. device_loop-Left cs taken h1 t1)

  get_device_list-Ends : Ends CreatesUnused (λ ds h. All (λ d. Unused d h) ds) (get_device_list H)
  unfolding get_device_list
  get_device_list-Ends = record { ends = λ h g. device_loop-Left device_chars [] h (g, tt) }

  pvcreate-Keeps : (ds : List String) → Keeps (Taken ds) (run H (pvcreate ds))
  unfolding run
  pvcreate-Keeps ds = record { keeps = λ h (g, a). ((a, g), later ds _ h a) }

  vgcreate-Keeps : (vg : String) (ds : List String) → Keeps (Taken ds) (run H (vgcreate vg ds))
  unfolding run
  vgcreate-Keeps vg ds = record { keeps = λ h (g, a). ((tt, g), later ds _ h a) }

  make_vg-Keeps : (vg : String) → Keeps CreatesUnused (make_vg H vg)
  unfolding make_vg
  make_vg-Keeps vg = bind-Ends _ get_device_list-Ends λ ds h g a.
      ((next (pvcreate-Keeps ds) (next (vgcreate-Keeps vg ds) pure-Keeps)).keeps h (g, a)).0

  count-Keeps : (c : Command) → ((h : History) → Created (ran c) h) → Keeps CreatesUnused (run H c)
  unfolding run
  count-Keeps c free = record { keeps = λ h g. (free h, g) }

  count_pvs-Keeps : (vg : String) → Keeps CreatesUnused (count_pvs H vg)
  unfolding count_pvs
  count_pvs-Keeps vg = bind (count-Keeps (count_vg_pvs vg) λ h. tt) λ _. lift-Keeps

  -- Making a volume group makes no device in use a physical volume: if in the history so far each run
  -- of pvcreate is on devices that were found not mounted before it (the count of their mounts failed or
  -- was "0") and at which, directly behind that, `pvdisplay` failed, this holds of the history after
  -- CreateVG, whatever its outcome.
  pub create_vg-CreatesUnused :
      (vg : String) (h : History) → CreatesUnused h → CreatesUnused (create_vg H vg h).1
  unfolding create_vg
  create_vg-CreatesUnused vg =
      (bind {P = CreatesUnused} (count-Keeps (count_vg vg) λ h. tt) λ line.
        if-Keeps (str_eq (trim_space line) "1") (count_pvs-Keeps vg) (make_vg-Keeps vg)).keeps
