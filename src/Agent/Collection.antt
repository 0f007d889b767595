-- ===== src/Agent/Collection.antt =====
-- What the collector (gc_reconciler.go) does with a volume.
use mathlib.Core.Path.{ap₂}
use kubernetes_local_volume.Base.{
  refl, ap, subst, sym, ◌∙◌, ◌↔◌, ◌⊎◌, eq_iff, eq_refl, not, select, any, In, any-In, In-any, List,
  [], ◌≡◌, String, str_eq, contains, Bool, true, false, none, some, ◌∷◌, arith, if◌then◌else◌,
  Bool-cases, Option-cases, ◌<>◌, inl, inr,
}
use kubernetes_local_volume.Fault.{Outcome, ok}
use kubernetes_local_volume.Host.{Host, History, Output, ran, updated_pv, or_throw, error_text}
use kubernetes_local_volume.Host.Commands.{lvremove, render}
use kubernetes_local_volume.Types.{local_volume_gc_tag, slice_contains_string}
use kubernetes_local_volume.Types.Slices.{contains-slice_remove_string, slice_remove_string-select}
use kubernetes_local_volume.Types.Objects.{Pv, Phase, released, ReclaimPolicy, delete}
use kubernetes_local_volume.Driver.Node.{publish_device_path}
use kubernetes_local_volume.Driver.Devices.{gc_device_path-publish_device_path}
use kubernetes_local_volume.Agent.Gc.{
  is_released, is_delete, lv_not_found_string, is_garbage, gc_device_path, without_gc_tag,
  gc_reconciler,
}

-- The answer of `lvremove` for the volume of `pv` after the history `h`.
abbrev pub removal : Host → Pv → History → Output
removal H pv h = H.shell h (render (lvremove (gc_device_path pv)))

-- By the answer of `lvremove` for the device, the logical volume is gone: the tool removed it, or says
-- that it did not find it.
abbrev pub is_gone_from : Host → String → Output → Bool
is_gone_from H device out = elim out.error [
  | none ↦ true
  | some e ↦
      contains
        ("Failed to run cmd: "
          <> render (lvremove device)
          <> ", with out: "
          <> out.text
          <> ", with error: "
          <> error_text H e)
        lv_not_found_string
]

-- The logical volume of `pv` is gone.
abbrev pub is_gone : Host → Pv → Output → Bool
is_gone H pv = is_gone_from H (gc_device_path pv)

-- The paths of the collector, by its guard.
pub gc_reconciler_cases :
    (H : Host) (pv : Pv) (h : History)
    → let after = ran (lvremove (gc_device_path pv)) ∷ h in
      let done = without_gc_tag pv in
      gc_reconciler H pv h ≡ (
        if is_garbage pv
        then (if is_gone H pv (removal H pv h)
            then (or_throw (H.update_pv after done), updated_pv done ∷ after)
            else (ok tt, after))
        else (ok tt, h))
unfolding gc_reconciler
gc_reconciler_cases H pv h = elim (Bool-cases (is_garbage pv)) [
  | inl garbage ↦ rw garbage (elim (Option-cases (removal H pv h).error) [
    | inl e ↦ rw (e, is_gone, is_gone_from)
    | inr (x, e) ↦ rw (e, is_gone, is_gone_from) (ground arith)
  ])
  | inr other ↦ rw other
]

-- The update takes the collector's finalizer away and no other.
pub without_gc_tag_finalizers :
    (pv : Pv) (t : String)
    → slice_contains_string (without_gc_tag pv).finalizers t
      ≡ (if str_eq local_volume_gc_tag t then false else slice_contains_string pv.finalizers t)
without_gc_tag_finalizers pv t = contains-slice_remove_string pv.finalizers local_volume_gc_tag t

-- A released volume with the policy to delete it and with the collector's finalizer.
abbrev pub IsGarbage : Pv → Type 0
IsGarbage pv =
    (pv.phase ≡ released) × (pv.reclaim_policy ≡ delete) × In local_volume_gc_tag pv.finalizers

-- The volume without the collector's finalizer, and with its others in their order.
abbrev pub untagged : Pv → Pv
untagged pv = record pv {
  finalizers = select (λ item. not (str_eq item local_volume_gc_tag)) pv.finalizers;
}

-- `lvremove` is run for the device that the driver makes for a volume of that name; if by its answer
-- the logical volume is gone, the volume is updated.
abbrev pub collected : Host → Pv → History → Outcome (Unit {0}) × History
collected H pv h =
    let device = publish_device_path pv.name in
    let after = ran (lvremove device) ∷ h in
    if is_gone_from H device (H.shell h (render (lvremove device)))
    then (or_throw (H.update_pv after (untagged pv)), updated_pv (untagged pv) ∷ after)
    else (ok tt, after)

released_lem : (p : Phase) → is_released p ≡ true → p ≡ released
unfolding is_released
released_lem released e = refl
released_lem _ e = cc

delete_lem : (p : ReclaimPolicy) → is_delete p ≡ true → p ≡ delete
unfolding is_delete
delete_lem delete e = refl
delete_lem _ e = cc

contains-any :
    (slice : List String) (s : String)
    → slice_contains_string slice s ≡ any (λ item. str_eq item s) slice
unfolding slice_contains_string
contains-any [] s = refl
contains-any (x ∷ xs) s = ground (arith, contains-any xs s)

contains-In :
    (slice : List String) (s : String) → (slice_contains_string slice s ≡ true) ↔ In s slice
contains-In slice s = (
  λ e.
      let (item, i, same) = any-In (λ item. str_eq item s) slice (sym (contains-any slice s) ∙ e) in
      subst (λ x. In x slice) ((eq_iff item s).0 same) i,
  λ i. contains-any slice s ∙ In-any (λ item. str_eq item s) slice i (eq_refl s),
)

is_garbage_iff : (pv : Pv) → (is_garbage pv ≡ true) ↔ IsGarbage pv
unfolding is_garbage is_released is_delete
is_garbage_iff pv = (
  λ e. (
    released_lem pv.phase (ground arith),
    delete_lem pv.reclaim_policy (ground arith),
    (contains-In pv.finalizers local_volume_gc_tag).0 (ground arith),
  ),
  λ (phase, policy, i). rw phase (rw policy ((contains-In pv.finalizers local_volume_gc_tag).1 i)),
)

without_gc_tag-untagged : (pv : Pv) → without_gc_tag pv ≡ untagged pv
without_gc_tag-untagged pv =
    ap (λ fs. record pv { finalizers = fs })
      (slice_remove_string-select pv.finalizers local_volume_gc_tag)

-- The collector leaves a volume alone unless it is released, has the policy to delete it and has the
-- collector's finalizer. For such a volume it first runs `lvremove` for the device that the driver makes
-- for a volume of that name; if by the answer the logical volume is gone, it updates the object to one
-- without that finalizer and with all else as it was; otherwise it does nothing more and reports no
-- error.
pub gc_reconciler-collected :
    (H : Host) (pv : Pv) (h : History)
    → (¬ IsGarbage pv × (gc_reconciler H pv h ≡ (ok tt, h)))
      ⊎ (IsGarbage pv × (gc_reconciler H pv h ≡ collected H pv h))
gc_reconciler-collected H pv h = elim (Bool-cases (is_garbage pv)) [
  | inr other ↦ inl (
    λ garbage. let e = (is_garbage_iff pv).1 garbage in cc,
    gc_reconciler_cases H pv h ∙ rw other refl,
  )
  | inl e ↦ inr (
    (is_garbage_iff pv).0 e,
    gc_reconciler_cases H pv h
        ∙ rw e (ap₂ at (gc_device_path-publish_device_path pv) (without_gc_tag-untagged pv)),
  )
]
  where
    at : String → Pv → Outcome (Unit {0}) × History
    at device done =
        let after = ran (lvremove device) ∷ h in
        if is_gone_from H device (H.shell h (render (lvremove device)))
        then (or_throw (H.update_pv after done), updated_pv done ∷ after)
        else (ok tt, after)
