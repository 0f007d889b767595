-- ===== src/Agent/Releasing.antt =====
-- What the release of bound claims (agent_reconciler.go) does to the sizes that the scheduler
-- (pkg/scheduler/utils.go) reckons with.
use kubernetes_local_volume.Base.{
  ◌≤◌, String, Bool, false, Option, none, some, List, [], ◌∷◌, arith, Bool-cases, inl, inr,
}
use kubernetes_local_volume.Base.Dict.{Dict, erase, has, keys}
use kubernetes_local_volume.Scheduler.{Cache, preallocated_keys}
use kubernetes_local_volume.Scheduler.Sizes.{key_total}
use kubernetes_local_volume.Lvm.{VgInfo}
use kubernetes_local_volume.Types.Objects.{LocalVolumeStatus}
use kubernetes_local_volume.Agent.Reconciler.{release_key, release_keys, with_map, next_status}

module _ (C : Cache) where
  erase-key_total :
      (k : String) (m : Dict String) → key_total C (keys (erase k m)) ≤ key_total C (keys m)
  unfolding erase
  erase-key_total k [] = omega arith
  erase-key_total k ((j, v) ∷ m) = ground (arith, erase-key_total k m)

  release_key-key_total :
      (k : String) (s : Dict String × Bool)
      → key_total C (keys (release_key k s).0) ≤ key_total C (keys s.0)
  unfolding release_key
  release_key-key_total k s = elim (Bool-cases (has k s.0)) [
    | inl held ↦ rw held (erase-key_total k s.0)
    | inr free ↦ rw free (omega arith)
  ]

  release_keys-key_total :
      (ks : List String) (s : Dict String × Bool)
      → key_total C (keys (release_keys ks s).0) ≤ key_total C (keys s.0)
  unfolding release_keys
  release_keys-key_total [] s = omega arith
  release_keys-key_total (k ∷ ks) s =
      omega (arith, release_keys-key_total ks (release_key k s), release_key-key_total k s)

  with_map-key_total :
      (o : Option (Dict String)) (ks : List String)
      → key_total C (preallocated_keys (with_map o ks).0) ≤ key_total C (preallocated_keys o)
  with_map-key_total none ks = omega arith
  with_map-key_total (some m) ks = release_keys-key_total ks (m, false)

  -- A new status never has more preallocated than the old one, whatever claims are bound.
  pub next_status-key_total :
      (info : VgInfo) (ks : List String) (s : LocalVolumeStatus)
      → key_total C (preallocated_keys (next_status info ks s).0.pre_allocated)
        ≤ key_total C (preallocated_keys s.pre_allocated)
  unfolding next_status
  next_status-key_total info ks s = with_map-key_total s.pre_allocated ks
