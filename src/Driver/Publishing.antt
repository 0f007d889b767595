-- ===== src/Driver/Publishing.antt =====
-- The tag that pkg/driver/nodeserver.go puts on a published volume, for which pkg/agent collects it,
-- and what is done with a target path.
use kubernetes_local_volume.Base.{
  ◌≡◌, refl, String, eq_refl, Bool, true, arith, Bool-cases, inl, inr, List, [], ◌∷◌, ◌++◌, none,
  some, ◌&&◌,
}
use kubernetes_local_volume.Base.Dict.{lookup-insert}
use kubernetes_local_volume.Fault.{Error, ok, fail, panic, got}
use kubernetes_local_volume.Host.{Host, History, got_pv}
use kubernetes_local_volume.Types.{local_volume_gc_tag, slice_contains_string}
use kubernetes_local_volume.Types.Objects.{Pv}
use kubernetes_local_volume.Agent.Gc.{is_garbage, is_released, is_delete}
use kubernetes_local_volume.Mounter.{is_mounted}
use kubernetes_local_volume.Driver.Node.{
  publish_tagged, has_publish_tag, volume_publish_success, update_pv_publish_success_tag, get_pv,
  ensure_target,
}

contains-snoc :
    (s : String) (slice : List String) → slice_contains_string (slice ++ s ∷ []) s ≡ true
unfolding slice_contains_string
contains-snoc s [] = ground (arith, eq_refl s)
contains-snoc s (x ∷ xs) = ground (arith, contains-snoc s xs)

tagged_finalizers :
    (pv : Pv) → slice_contains_string (publish_tagged pv).finalizers local_volume_gc_tag ≡ true
unfolding publish_tagged
tagged_finalizers pv = elim (Bool-cases (slice_contains_string pv.finalizers local_volume_gc_tag)) [
  | inl there ↦ rw (there, publish_tagged) there
  | inr missing ↦ rw (missing, publish_tagged) (contains-snoc local_volume_gc_tag pv.finalizers)
]

-- A volume that the driver tagged is one that the driver does not tag again, and it is garbage for the
-- agent just when it is released and its reclaim policy is to delete it.
pub publish_tagged-is_garbage :
    (pv : Pv)
    → (has_publish_tag (publish_tagged pv) ≡ true)
      × (is_garbage (publish_tagged pv) ≡ (is_released pv.phase && is_delete pv.reclaim_policy))
unfolding is_garbage publish_tagged has_publish_tag
publish_tagged-is_garbage pv = (
  ground (
    arith,
    lookup-insert {V = String} volume_publish_success volume_publish_success "true"
        (elim pv.annotations [ none ↦ [] | some m ↦ m ]),
  ),
  rw (tagged_finalizers pv) (ground arith),
)

-- At a volume that has the tag the update only reads the object.
pub update_pv_publish_success_tag_once :
    (H : Host) (volume_id : String) (h : History) (pv : Pv)
    → H.get_pv h volume_id ≡ got (publish_tagged pv)
    → update_pv_publish_success_tag H volume_id h ≡ (ok tt, got_pv volume_id ∷ h)
unfolding update_pv_publish_success_tag get_pv
update_pv_publish_success_tag_once H volume_id h pv found =
    rw found (rw (publish_tagged-is_garbage pv).0 refl)

-- Where the test of the mount fails and the target path exists, the handler panics.
pub ensure_target_panics :
    (H : Host) (target : String) (h : History) (e : Error) (is_dir : Bool)
    → (is_mounted H target h).0 ≡ fail e
    → H.stat (is_mounted H target h).1 target ≡ got is_dir
    → (ensure_target H target h).0 ≡ panic
unfolding ensure_target
ensure_target_panics H target h e is_dir failed there = rw failed (rw there refl)
