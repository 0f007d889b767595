-- ===== src/Agent/Convergence.antt =====
-- The reconciler of a node's local volume (agent_reconciler.go): what it sends, and what is left to
-- send after it.
use mathlib.Core.Option.{some-injective}
use mathlib.Core.Bool.{false≢true}
use kubernetes_local_volume.Base.{
  ◌≡◌, ◌≢◌, ◌↔◌, refl, sym, ap, ◌∙◌, subst, String, str_eq, eq_iff, eq_refl, Bool, true, false,
  Option, none, some, List, [], ◌∷◌, arith, if◌then◌else◌, Bool-cases, inl, inr, elem,
}
use kubernetes_local_volume.Base.Dict.{Dict, lookup, erase, has, keys, lookup-erase}
use kubernetes_local_volume.Fault.{ok, Reply}
use kubernetes_local_volume.Host.{Host, History, updated_lv_status, or_throw}
use kubernetes_local_volume.Lvm.{VgInfo, VgsOutput, get_vg_info}
use kubernetes_local_volume.Types.{vg_name}
use kubernetes_local_volume.Types.Objects.{Pv, LocalVolume, LocalVolumeStatus}
use kubernetes_local_volume.Agent.Reconciler.{
  release_key, release_keys, with_map, next_status, get_my_node_bounded_pvc_list, reconciler,
}

lookup-release_key :
    (j k : String) (s : Dict String × Bool)
    → lookup j (release_key k s).0 ≡ (if str_eq k j then none else lookup j s.0)
unfolding release_key
lookup-release_key j k s = ground (arith, lookup-erase j k s.0, eq_iff k j)

-- A key stands for what it stood for, unless it is one of those released.
pub lookup-release_keys :
    (j : String) (ks : List String) (s : Dict String × Bool)
    → lookup j (release_keys ks s).0 ≡ (if elem j ks then none else lookup j s.0)
unfolding release_keys
lookup-release_keys j [] s = refl
lookup-release_keys j (k ∷ ks) s =
    lookup-release_keys j ks (release_key k s) ∙ ground (arith, lookup-release_key j k s)

release_key-held :
    (k : String) (s : Dict String × Bool) → has k s.0 ≡ true → release_key k s ≡ (erase k s.0, true)
unfolding release_key
release_key-held k s h = rw h

release_key-free : (k : String) (s : Dict String × Bool) → has k s.0 ≡ false → release_key k s ≡ s
unfolding release_key
release_key-free k s h = rw h

release_key-true : (k : String) (s : Dict String × Bool) → s.1 ≡ true → (release_key k s).1 ≡ true
unfolding release_key
release_key-true k s h = ground arith

-- The flag stays up.
release_keys-true :
    (ks : List String) (s : Dict String × Bool) → s.1 ≡ true → (release_keys ks s).1 ≡ true
unfolding release_keys
release_keys-true [] s h = h
release_keys-true (k ∷ ks) s h = release_keys-true ks (release_key k s) (release_key-true k s h)

-- With the flag down at the end nothing was released.
release_keys-false :
    (ks : List String) (s : Dict String × Bool)
    → (release_keys ks s).1 ≡ false
    → release_keys ks s ≡ s
unfolding release_keys
release_keys-false [] s h = refl
release_keys-false (k ∷ ks) s h = elim (Bool-cases (has k s.0)) [
  | inl held ↦ cc (release_keys-true ks (release_key k s) (rw (release_key-held k s held)), h)
  | inr free ↦ release_keys-false ks (release_key k s) h ∙ release_key-free k s free
]

-- Where no key is held nothing is released.
release_keys-none :
    (ks : List String) (s : Dict String × Bool)
    → ((k : String) → elem k ks ≡ true → lookup k s.0 ≡ none)
    → release_keys ks s ≡ s
unfolding release_keys
release_keys-none [] s h = refl
release_keys-none (k ∷ ks) s h =
    let kept = release_key-free k s (rw (h k (rw (eq_refl k)), has)) in
    rw kept (release_keys-none ks s (λ j e. h j (ground arith)))

release_keys_twice :
    (ks : List String) (m : Dict String)
    → release_keys ks ((release_keys ks (m, false)).0, false)
      ≡ ((release_keys ks (m, false)).0, false)
release_keys_twice ks m = release_keys-none ks _ λ k e. lookup-release_keys k ks (m, false) ∙ rw e

with_map_twice :
    (o : Option (Dict String)) (ks : List String)
    → with_map (with_map o ks).0 ks ≡ ((with_map o ks).0, false)
with_map_twice none ks = refl
with_map_twice (some m) ks = rw (release_keys_twice ks m)

with_map-false :
    (o : Option (Dict String)) (ks : List String)
    → (with_map o ks).1 ≡ false
    → (with_map o ks).0 ≡ o
with_map-false none ks h = refl
with_map-false (some m) ks h = ap (λ s. some s.0) (release_keys-false ks (m, false) h)

-- Computing the status once more changes nothing.
pub next_status_twice :
    (info : VgInfo) (ks : List String) (s : LocalVolumeStatus)
    → next_status info ks (next_status info ks s).0 ≡ ((next_status info ks s).0, false)
unfolding next_status
next_status_twice info ks s = ground (arith, with_map_twice s.pre_allocated ks)

next_status_same :
    (info : VgInfo) (ks : List String) (s : LocalVolumeStatus)
    → (next_status info ks s).1 ≡ false
    → (next_status info ks s).0 ≡ s
unfolding next_status
next_status_same info ks s h = ground (arith, with_map-false s.pre_allocated ks)

-- A status that is the old one is not flagged.
with_map-same :
    (o : Option (Dict String)) (ks : List String)
    → (with_map o ks).0 ≡ o
    → (with_map o ks).1 ≡ false
with_map-same none ks h = refl
with_map-same (some m) ks h =
    let unheld = λ (k : String) (e : elem k ks ≡ true).
      subst (λ n. lookup k n ≡ none) (some-injective _ _ h)
        (lookup-release_keys k ks (m, false) ∙ rw e) in
    ap (λ s. s.1) (release_keys-none ks (m, false) unheld)

next_status_flag :
    (info : VgInfo) (ks : List String) (s : LocalVolumeStatus)
    → (next_status info ks s).0 ≡ s
    → (next_status info ks s).1 ≡ false
unfolding next_status
next_status_flag info ks s h = ground (
  arith,
  with_map-same s.pre_allocated ks (ap (λ t. t.pre_allocated) h),
  ap (λ t. t.total_size) h,
  ap (λ t. t.free_size) h,
)

module _ (H : Host) (unmarshal : String → Reply VgsOutput) (node_id : String)
    (all_pv : Reply (List Pv)) (info : VgInfo) (bound_claims : Dict String)
    (listed : get_my_node_bounded_pvc_list node_id all_pv ≡ ok bound_claims) where
  -- The local volume with the status that the volume group and the bound claims give.
  abbrev pub updated : LocalVolume → LocalVolume
  updated lv = record lv { status = (next_status info (keys bound_claims) lv.status).0 }

  -- Where the volume group is known, a reconciliation sends the new status if the flag of the change is
  -- up and sends nothing otherwise, and the flag is up just when the new status is another than the
  -- old one.
  pub reconciler_sends_changes :
      (lv : LocalVolume) (h h1 : History)
      → get_vg_info H unmarshal vg_name h ≡ (ok (some info), h1)
      → let changed = (next_status info (keys bound_claims) lv.status).1 in
        (reconciler H unmarshal node_id all_pv lv h ≡ (
          if changed
          then (or_throw (H.update_lv_status h1 (updated lv)), updated_lv_status (updated lv) ∷ h1)
          else (ok tt, h1)))
        × ((changed ≡ true) ↔ ((updated lv).status ≢ lv.status))
  unfolding reconciler
  reconciler_sends_changes lv h h1 e = (
    rw e (
        rw listed (elim (Bool-cases (next_status info (keys bound_claims) lv.status).1) [
          | inl up ↦ rw up refl
          | inr down ↦ rw down refl
        ])),
    (
      λ up same. false≢true (sym (next_status_flag info (keys bound_claims) lv.status same) ∙ up),
      λ differs. elim (Bool-cases (next_status info (keys bound_claims) lv.status).1) [
        | inl up ↦ up
        | inr down ↦ absurd (differs (next_status_same info (keys bound_claims) lv.status down))
      ],
    ),
  )

  -- Once sent, the same volume group and claims give nothing more to send.
  pub reconciler_twice :
      (lv : LocalVolume) (h h1 : History)
      → get_vg_info H unmarshal vg_name h ≡ (ok (some info), h1)
      → reconciler H unmarshal node_id all_pv (updated lv) h ≡ (ok tt, h1)
  unfolding reconciler
  reconciler_twice lv h h1 e =
      (reconciler_sends_changes (updated lv) h h1 e).0
      ∙ rw (ap (λ p. p.1) (next_status_twice info (keys bound_claims) lv.status)) refl
