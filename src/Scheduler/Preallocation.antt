-- ===== src/Scheduler/Preallocation.antt =====
-- What binding a pod (pkg/scheduler/bind.go) does to the sizes that later pods are judged by.
use kubernetes_local_volume.Base.{
  ℕ, ◌+◌, ◌%◌, ◌<◌, ◌≡◌, ◌≢◌, refl, ◌∙◌, subst, String, eq_iff, Option, none, some, List, [], ◌∷◌,
  arith, Option-cases, inl, inr, All,
}
use kubernetes_local_volume.Base.Dict.{Dict, lookup, insert, keys, values, lookup-insert}
use kubernetes_local_volume.Fault.{Error, Outcome, ok, fail, panic, got, refused, ok-injective}
use kubernetes_local_volume.Fault.Pure.{◌>>=◌}
use kubernetes_local_volume.Scheduler.{
  Cache, namespace_default, uint64_mod, local_claim, add_name, names_loop,
  get_pod_local_volume_pvc_names, key_size, preallocate_loop, preallocated_keys, status_free_size,
}
use kubernetes_local_volume.Host.{Host, History, updated_lv_status, bound_pod, error_text}
use kubernetes_local_volume.Scheduler.Binding.{
  BindingArgs, mark_all, preallocate, made_map, bind, bind_handler,
}
use kubernetes_local_volume.Types.Objects.{Pod, Pvc, Volume, LocalVolume, NamespacedName}

abbrev pub Blank : String → Type 0
Blank v = v ≡ ""

insert-Blank :
    (k : String) (m : Dict String) → All Blank (values m) → All Blank (values (insert k "" m))
unfolding insert
insert-Blank k [] b = (refl, tt)
insert-Blank k ((j, v) ∷ m) b = ground (arith, insert-Blank k m)

add_name-Blank :
    (C : Cache) (claim : Option Pvc) (m : Dict String)
    → All Blank (values m)
    → All Blank (values (add_name C m claim))
unfolding add_name
add_name-Blank C none m b = b
add_name-Blank C (some pvc) m b = insert-Blank _ m b

bind-Blank :
    (claim : Outcome (Option Pvc)) (loop : Option Pvc → Outcome (Dict String)) {names : Dict String}
    → ((c : Option Pvc) → loop c ≡ ok names → All Blank (values names))
    → (claim >>= loop) ≡ ok names
    → All Blank (values names)
bind-Blank (ok c) loop h e = h c e
bind-Blank (fail x) loop h e = cc
bind-Blank panic loop h e = cc

names_loop-Blank :
    (C : Cache) (namespace : String) (volumes : List Volume) (result names : Dict String)
    → All Blank (values result)
    → names_loop C namespace result volumes ≡ ok names
    → All Blank (values names)
unfolding names_loop
names_loop-Blank C namespace [] result names b h =
    subst (λ m. All Blank (values m)) (ok-injective h) b
names_loop-Blank C namespace (volume ∷ volumes) result names b h =
    bind-Blank (local_claim C namespace volume)
      (λ c. names_loop C namespace (add_name C result c) volumes)
      (λ c e.
        names_loop-Blank C namespace volumes (add_name C result c) names
          (add_name-Blank C c result b) e)
      h

pub pvc_names-Blank :
    (C : Cache) (pod : Pod) (names : Dict String)
    → get_pod_local_volume_pvc_names C pod ≡ ok names
    → All Blank (values names)
unfolding get_pod_local_volume_pvc_names
pvc_names-Blank C pod names h = names_loop-Blank C pod.namespace pod.volumes [] names tt h

lookup-mark_all :
    (k : String) (vs : List String) (m : Dict String)
    → k ≢ ""
    → All Blank vs
    → lookup k (mark_all vs m) ≡ lookup k m
unfolding mark_all
lookup-mark_all k [] m h b = refl
lookup-mark_all k (v ∷ vs) m h b =
    lookup-mark_all k vs (insert v "" m) h b.1 ∙ lookup-insert k v "" m ∙ ground (arith, eq_iff v k)

-- No claim has an empty name in an empty namespace.
abbrev pub NoBlankClaim : Cache → Type 0
NoBlankClaim C = (e : Error) × (C.get_pvc "" "" ≡ refused e)

pub key_size-blank : (C : Cache) → NoBlankClaim C → key_size C "" ≡ 0
unfolding key_size
key_size-blank C (e, h) = rw (h, key_size)

preallocate_loop-insert :
    (C : Cache) (size : ℕ) (v w : String) (m : Dict String)
    → NoBlankClaim C
    → size < uint64_mod
    → v ≡ ""
    → preallocate_loop C size (keys (insert v w m)) ≡ preallocate_loop C size (keys m)
unfolding preallocate_loop insert
preallocate_loop-insert C size v w [] n b e = rw e (rw (key_size-blank C n) (omega arith))
preallocate_loop-insert C size v w ((j, x) ∷ m) n b e = ground (
  arith,
  eq_iff j v,
  preallocate_loop-insert C ((size + key_size C j) % uint64_mod) v w m n (omega arith) e,
)

preallocate_loop-mark_all :
    (C : Cache) (vs : List String) (m : Dict String)
    → NoBlankClaim C
    → All Blank vs
    → preallocate_loop C 0 (keys (mark_all vs m)) ≡ preallocate_loop C 0 (keys m)
unfolding mark_all
preallocate_loop-mark_all C [] m n b = refl
preallocate_loop-mark_all C (v ∷ vs) m n b =
    preallocate_loop-mark_all C vs (insert v "" m) n b.1
    ∙ preallocate_loop-insert C 0 v "" m n (omega arith) b.0

pub preallocated_keys-made_map :
    (m : Option (Dict String)) → preallocated_keys m ≡ keys (made_map m)
preallocated_keys-made_map none = refl
preallocated_keys-made_map (some m) = refl

-- The text of an error, and the empty text for none.
abbrev pub text_of : Host → Option Error → String
text_of H none = ""
text_of H (some e) = error_text H e

module _ (C : Cache) (pod : Pod) (names : Dict String) (lv : LocalVolume) where
  records_no_claim :
      (key : String)
      → get_pod_local_volume_pvc_names C pod ≡ ok names
      → key ≢ ""
      → lookup key (made_map (preallocate names lv).status.pre_allocated)
        ≡ lookup key (made_map lv.status.pre_allocated)
  unfolding preallocate
  records_no_claim key h filled =
      lookup-mark_all key (values names) (made_map lv.status.pre_allocated) filled
        (pvc_names-Blank C pod names h)

  pub free_size-preallocate :
      NoBlankClaim C
      → get_pod_local_volume_pvc_names C pod ≡ ok names
      → status_free_size C (preallocate names lv) ≡ status_free_size C lv
  unfolding status_free_size preallocate
  free_size-preallocate n h = rw (
    preallocated_keys-made_map lv.status.pre_allocated,
    preallocate_loop-mark_all C (values names) (made_map lv.status.pre_allocated) n
        (pvc_names-Blank C pod names h),
  )

-- A bind that reaches the API server sends a status in which a key that is not empty stands for what
-- it stood for before, so that none of the pod's claims is recorded, and by which the node's free
-- size is what it was. (No claim has an empty name in an empty namespace.)
pub bind_records_no_claim :
    (H : Host) (C : Cache) (args : BindingArgs) (h : History) (pod : Pod) (names : Dict String)
    (lv : LocalVolume) (key : String)
    → C.get_pod args.pod_namespace args.pod_name ≡ got pod
    → get_pod_local_volume_pvc_names C pod ≡ ok names
    → C.get_local_volume namespace_default args.node ≡ got lv
    → NoBlankClaim C
    → key ≢ ""
    → (sent : LocalVolume) × ((bind H C args h).1 ≡ updated_lv_status sent ∷ h)
      × (lookup key (made_map sent.status.pre_allocated)
          ≡ lookup key (made_map lv.status.pre_allocated))
      × (status_free_size C sent ≡ status_free_size C lv)
unfolding bind
bind_records_no_claim H C args h pod names lv key found named at_node blank filled = (
  preallocate names lv,
  rw found (rw named (rw at_node)),
  records_no_claim C pod names lv key named filled,
  free_size-preallocate C pod names lv blank named,
)

-- The status is sent first. The pod is bound to the node just when the API server took the status,
-- and the answer has the text of the first error.
pub bind_handler_order :
    (H : Host) (C : Cache) (args : BindingArgs) (h : History) (pod : Pod) (names : Dict String)
    (lv : LocalVolume)
    → C.get_pod args.pod_namespace args.pod_name ≡ got pod
    → get_pod_local_volume_pvc_names C pod ≡ ok names
    → C.get_local_volume namespace_default args.node ≡ got lv
    → let sent = updated_lv_status (preallocate names lv) ∷ h in
      let target : NamespacedName = record {
        namespace = args.pod_namespace;
        name = args.pod_name;
      } in
      bind_handler H C args h ≡ elim (H.update_lv_status h (preallocate names lv)) [
        | some e ↦ (ok (record { error = error_text H e }), sent)
        | none ↦ (
          ok (record { error = text_of H (H.bind_pod sent target args.node) }),
          bound_pod target args.node ∷ sent,
        )
      ]
unfolding bind_handler
bind_handler_order H C args h pod names lv found named at_node = rw found (
    rw named (
      rw at_node (elim (Option-cases (H.update_lv_status h (preallocate names lv))) [
        | inl taken ↦
            rw taken
              (elim (Option-cases (
                H.bind_pod (updated_lv_status (preallocate names lv) ∷ h)
                  (record { namespace = args.pod_namespace; name = args.pod_name }) args.node)) [
                    | inl done ↦ rw done refl
                    | inr (e, refusal) ↦ rw refusal refl
                  ])
        | inr (e, refusal) ↦ rw refusal refl
      ])))
