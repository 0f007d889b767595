-- ===== src/Store/Edits/Refreshing.antt =====
-- Reconcile of pkg/agent/agent_reconciler.go on a deep copy, and the objects of the caches.
use kubernetes_local_volume.Base.{
  ℕ, ◌<◌, ◌==◌, String, Bool, Bool-cases, inl, inr, true, false, not, ◌||◌, ◌≡◌, refl, ap, sym, ◌∙◌,
  Option, none, some, List, [], ◌∷◌, ==_iff, arith,
}
use kubernetes_local_volume.Base.Dict.{Dict, erase, has}
use kubernetes_local_volume.Types.Objects.{LocalVolume}
use kubernetes_local_volume.Lvm.{VgInfo}
use kubernetes_local_volume.Agent.Reconciler.{
  floor_1024, release_key, release_keys, with_map, next_status,
}
use kubernetes_local_volume.Store.{put, put-put, put-cell, cell-put}
use kubernetes_local_volume.Store.Volumes.{Maps, Heap, StoredStatus, StoredVolume, see_map}
use kubernetes_local_volume.Store.Copies.{Keeps, IsFresh}
use kubernetes_local_volume.Store.Edits.{release_loop, assign, refresh, edit_copy}
use kubernetes_local_volume.Store.Edits.Unaliased.{
  Implements, AllStored, Unaliased, edit_copy-Implements, put-Keeps,
}

-- The status of `next_status` in the object, and whether it is sent.
abbrev pub refreshed : VgInfo → List String → LocalVolume → LocalVolume × Bool
refreshed vg_info bound_keys lv =
    let (status, changed) = next_status vg_info bound_keys lv.status in
    (record lv { status = status }, changed)

release_keys-found :
    (k : String) (ks : List String) (m : Dict String) (c : Bool)
    → has k m ≡ true
    → release_keys (k ∷ ks) (m, c) ≡ release_keys ks (erase k m, true)
unfolding release_keys release_key
release_keys-found k ks m c found = rw found refl

release_keys-missing :
    (k : String) (ks : List String) (m : Dict String) (c : Bool)
    → has k m ≡ false
    → release_keys (k ∷ ks) (m, c) ≡ release_keys ks (m, c)
unfolding release_keys release_key
release_keys-missing k ks m c missing = rw missing refl

release_keys-nil : (s : Dict String × Bool) → release_keys [] s ≡ s
unfolding release_keys
release_keys-nil s = refl

release_keys-flag :
    (ks : List String) (m : Dict String)
    → release_keys ks (m, true) ≡ ((release_keys ks (m, false)).0, true)
release_keys-flag [] m = rw release_keys-nil (rw release_keys-nil refl)
release_keys-flag (k ∷ ks) m = elim (Bool-cases (has k m)) [
  | inl found ↦
      rw (release_keys-found k ks m true found, release_keys-found k ks m false found)
        (rw (release_keys-flag ks (erase k m)) refl)
  | inr missing ↦
      rw (release_keys-missing k ks m true missing, release_keys-missing k ks m false missing)
        (release_keys-flag ks m)
]

release_loop-put :
    (ks : List String) (r : ℕ) (M : Maps) (c : Bool)
    → release_loop ks (some r) M c
      ≡ (put r (release_keys ks (M.cell r, c)).0 M, (release_keys ks (M.cell r, c)).1)
unfolding release_loop
release_loop-put [] r M c = rw release_keys-nil (ap (λ M2. (M2, c)) (sym (put-cell r M)))
release_loop-put (k ∷ ks) r M c = elim (Bool-cases (has k (M.cell r))) [
  | inl found ↦
      rw (found, release_keys-found k ks (M.cell r) c found)
        (release_loop-put ks r _ true ∙ rw (put-put, cell-put) refl)
  | inr missing ↦
      rw (missing, release_keys-missing k ks (M.cell r) c missing) (release_loop-put ks r M c)
]

release_loop-nil : (ks : List String) (M : Maps) (c : Bool) → release_loop ks none M c ≡ (M, c)
unfolding release_loop
release_loop-nil [] M c = refl
release_loop-nil (k ∷ ks) M c = release_loop-nil ks M c

-- The two sizes after steps 1 and 2, and the flag.
assign-size : (size : ℕ) (s : ℕ × Bool) → assign size s ≡ (size, not (size == s.0) || s.1)
assign-size size (old, changed) = elim (Bool-cases (size == old)) [
  | inl same ↦ rw same (ap (λ n. (n, changed)) (sym ((==_iff size old).0 same)))
  | inr other ↦ rw other refl
]

released_map :
    (ks : List String) (m : Option ℕ) (M : Maps) (c : Bool)
    → let (M2, changed) = release_loop ks m M c in
      let (pre_allocated, released_some) = with_map (see_map M m) ks in
      (see_map M2 m ≡ pre_allocated) × (changed ≡ (c || released_some))
released_map ks none M true = rw release_loop-nil (refl, refl)
released_map ks none M false = rw release_loop-nil (refl, refl)
released_map ks (some r) M true =
    rw (release_loop-put ks r M true, release_keys-flag ks (M.cell r))
      (ap some (cell-put r _ M), refl)
released_map ks (some r) M false =
    rw (release_loop-put ks r M false) (ap some (cell-put r _ M), refl)

released-Keeps :
    (ks : List String) (m : Option ℕ) (M0 M : Maps) (c : Bool)
    → Keeps M0 M
    → IsFresh M0 M m
    → Keeps M0 (release_loop ks m M c).0
released-Keeps ks none M0 M c kept _ = rw release_loop-nil kept
released-Keeps ks (some r) M0 M c kept (new, _) = rw release_loop-put (put-Keeps r _ M0 M kept new)

with_status : StoredVolume → ℕ → ℕ → Option (Dict String) → Bool → LocalVolume × Bool
with_status lv total_size free_size pre_allocated changed = (
  record {
    namespace = lv.namespace;
    name = lv.name;
    status = record {
      total_size = total_size;
      free_size = free_size;
      pre_allocated = pre_allocated;
    };
  },
  changed,
)

with_status-same :
    (lv : StoredVolume) (t t2 f f2 : ℕ) (m m2 : Option (Dict String)) (c c2 : Bool)
    → t ≡ t2
    → f ≡ f2
    → m ≡ m2
    → c ≡ c2
    → with_status lv t f m c ≡ with_status lv t2 f2 m2 c2
with_status-same lv t t2 f f2 m m2 c c2 same_t same_f same_m same_c = cc

-- The flag of the code against that of `next_status`.
flag_order : (a b c : Bool) → ((b || (a || false)) || c) ≡ (a || b || c)
flag_order a b c = ground arith

assigned-flag :
    (total free : ℕ) (s : StoredStatus) (c : Bool)
    → ((assign free (s.free_size, (assign total (s.total_size, false)).1)).1 || c)
      ≡ (not (total == s.total_size) || not (free == s.free_size) || c)
assigned-flag total free s c =
    rw
      (
        assign-size free (s.free_size, (assign total (s.total_size, false)).1),
        assign-size total (s.total_size, false),
      )
      (flag_order (not (total == s.total_size)) (not (free == s.free_size)) c)

refresh-Implements :
    (vg_info : VgInfo) (bound_keys : List String)
    → Implements (refresh vg_info bound_keys) (refreshed vg_info bound_keys)
unfolding refresh next_status with_status
refresh-Implements vg_info bound_keys M0 M lv kept fresh =
    let total = floor_1024 vg_info.vg_size in
    let free = floor_1024 vg_info.vg_free in
    let first = assign total (lv.status.total_size, false) in
    let second = assign free (lv.status.free_size, first.1) in
    let (same_map, same_flag) = released_map bound_keys lv.status.pre_allocated M second.1 in
    (
      with_status-same lv first.0 total second.0 free _ _ _ _
          (ap (λ s. s.0) (assign-size total (lv.status.total_size, false)))
          (ap (λ s. s.0) (assign-size free (lv.status.free_size, first.1))) same_map
          (same_flag ∙ assigned-flag total free lv.status _),
      released-Keeps bound_keys lv.status.pre_allocated M0 M _ kept fresh,
    )

-- The reconciliation of the deep copy of a local volume, in a memory where the map of each volume is
-- allocated and has no key twice: the copy, and whether it is sent, are what `next_status` gives for
-- that volume, and every volume that was allocated before reads as before.
pub edit_copy-next_status :
    (vg_info : VgInfo) (bound_keys : List String) (h : Heap) (lv : ℕ)
    → AllStored h
    → lv < h.volumes.size
    → Unaliased (refreshed vg_info bound_keys) h lv (edit_copy (refresh vg_info bound_keys) lv h)
edit_copy-next_status vg_info bound_keys h lv stored known =
    edit_copy-Implements (refresh vg_info bound_keys) (refreshed vg_info bound_keys)
      (refresh-Implements vg_info bound_keys) h lv stored known
