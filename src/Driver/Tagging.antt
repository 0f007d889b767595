-- ===== src/Driver/Tagging.antt =====
-- The tag at the end of NodePublishVolume (pkg/driver/nodeserver.go).
use mathlib.Core.Bool.{false≢true}
use kubernetes_local_volume.Base.{
  String, eq_iff, ◌∙◌, sym, ◌||◌, ◌++◌, some, List, [], arith, str_eq, ◌≡◌, ◌⊎◌, inl, inr, refl,
  true, false, none, ◌∷◌, if◌then◌else◌, Bool-cases, Option-cases,
}
use kubernetes_local_volume.Base.Dict.{Dict, lookup, has, lookup-insert}
use kubernetes_local_volume.Fault.{ok, got, Reply-cases}
use kubernetes_local_volume.Host.{Host, History, got_pv, patched_pv, pure, internal}
use kubernetes_local_volume.Host.Laws.{Returns, last, last_next, internal-Returns}
use kubernetes_local_volume.Types.{vg_name, local_volume_gc_tag, slice_contains_string}
use kubernetes_local_volume.Types.Objects.{Pv}
use kubernetes_local_volume.Driver.Node.{
  volume_publish_success, PublishRequest, publish_tagged, has_publish_tag,
  update_pv_publish_success_tag, publish, node_publish_volume, publish_device_path, context_value,
  default_fs, fs_type_tag, ensure_volume, ensure_target, ensure_filesystem, ensure_mount,
  resize_volume,
}

-- A map that is nil has no keys.
abbrev pub annotations_of : Pv → Dict String
annotations_of pv = elim pv.annotations [ none ↦ [] | some m ↦ m ]

-- `tagged` is `pv` with the annotation that tells of a publication and with the collector's finalizer:
-- the other annotations, finalizers and fields are those of `pv`.
abbrev pub IsTagged : Pv → Pv → Type 0
IsTagged pv tagged =
    ((k : String)
      → lookup k (annotations_of tagged)
        ≡ (if str_eq volume_publish_success k then some "true" else lookup k (annotations_of pv)))
    × ((t : String)
        → slice_contains_string tagged.finalizers t
          ≡ (str_eq local_volume_gc_tag t || slice_contains_string pv.finalizers t))
    × (record tagged { annotations = pv.annotations; finalizers = pv.finalizers } ≡ pv)

-- The last call to the outside is the reading of a volume that has the annotation, or the patch that turns
-- the volume that was read just before into a tagged one, and the API server took the patch.
abbrev pub Tagged : Host → String → History → Type 0
Tagged H volume_id h =
    (before : History) × (pv : Pv) × (H.get_pv before volume_id ≡ got pv)
    × (((h ≡ got_pv volume_id ∷ before) × (has volume_publish_success (annotations_of pv) ≡ true))
        ⊎ ((tagged : Pv) × IsTagged pv tagged
            × ((old : String) × (new : String) × (patch : String) × (h
                  ≡ patched_pv volume_id patch ∷ got_pv volume_id ∷ before)
                × (H.marshal_pv pv ≡ got old)
                × (H.marshal_pv tagged ≡ got new)
                × (H.merge_patch old new ≡ got patch)
                × (H.patch_pv (got_pv volume_id ∷ before) volume_id patch ≡ none))))

contains-snoc :
    (s t : String) (slice : List String)
    → slice_contains_string (slice ++ s ∷ []) t ≡ (str_eq s t || slice_contains_string slice t)
unfolding slice_contains_string
contains-snoc s t [] = ground (arith, eq_iff s t, eq_iff t s)
contains-snoc s t (x ∷ xs) = ground (arith, eq_iff s t, eq_iff t s, contains-snoc s t xs)

contains-itself :
    (s t : String) (slice : List String)
    → slice_contains_string slice s ≡ true
    → slice_contains_string slice t ≡ (str_eq s t || slice_contains_string slice t)
unfolding slice_contains_string
contains-itself s t slice there = elim (Bool-cases (str_eq s t)) [
  | inr other ↦ rw other refl
  | inl same ↦ rw (same, ← (eq_iff s t).0 same) there
]

publish_tagged-IsTagged : (pv : Pv) → IsTagged pv (publish_tagged pv)
unfolding publish_tagged
publish_tagged-IsTagged pv = (
  λ k. lookup-insert {V = String} k volume_publish_success "true" (annotations_of pv),
  λ t. elim (Bool-cases (slice_contains_string pv.finalizers local_volume_gc_tag)) [
    | inl there ↦
        rw (there, publish_tagged) (contains-itself local_volume_gc_tag t pv.finalizers there)
    | inr missing ↦ rw (missing, publish_tagged) (contains-snoc local_volume_gc_tag t pv.finalizers)
  ],
  refl,
)

has_publish_tag-has :
    (pv : Pv) → has_publish_tag pv ≡ true → has volume_publish_success (annotations_of pv) ≡ true
unfolding has_publish_tag
has_publish_tag-has pv e = elim (Option-cases pv.annotations) [
  | inl missing ↦ absurd (false≢true (sym (rw (missing, has_publish_tag) refl) ∙ e))
  | inr (m, there) ↦ rw there (sym (rw (there, has_publish_tag) refl) ∙ e)
]

module _ (H : Host) (volume_id : String) where
  -- The patch of a volume that was read and has no tag.
  patched-Tagged :
      (h : History) (pv : Pv) (a : Unit {0})
      → H.get_pv h volume_id ≡ got pv
      → has_publish_tag pv ≡ false
      → (update_pv_publish_success_tag H volume_id h).0 ≡ ok a
      → Tagged H volume_id (update_pv_publish_success_tag H volume_id h).1
  unfolding update_pv_publish_success_tag
  patched-Tagged h pv a found fresh = rw found (
      rw fresh (elim (Reply-cases (H.marshal_pv pv)) [
        | inr (x, o) ↦ rw o (λ e. cc)
        | inl (old, o) ↦ rw o (elim (Reply-cases (H.marshal_pv (publish_tagged pv))) [
          | inr (x, n) ↦ rw n (λ e. cc)
          | inl (new, n) ↦ rw n (elim (Reply-cases (H.merge_patch old new)) [
            | inr (x, p) ↦ rw p (λ e. cc)
            | inl (patch, p) ↦
                rw p (elim (Option-cases (H.patch_pv (got_pv volume_id ∷ h) volume_id patch)) [
                  | inr (x, t) ↦ rw t (λ e. cc)
                  | inl t ↦ rw t (λ e. (
                    h,
                    pv,
                    found,
                    inr (
                      publish_tagged pv,
                      publish_tagged-IsTagged pv,
                      (old, new, patch, refl, o, n, p, t),
                    ),
                  ))
                ])
          ])
        ])
      ]))

  update-Tagged : Returns (Tagged H volume_id) (update_pv_publish_success_tag H volume_id)
  unfolding update_pv_publish_success_tag
  update-Tagged = record {
    returns = λ h a. elim (Reply-cases (H.get_pv h volume_id)) [
      | inr (x, missing) ↦ rw missing (λ e. cc)
      | inl (pv, found) ↦ elim (Bool-cases (has_publish_tag pv)) [
        | inr fresh ↦ patched-Tagged h pv a found fresh
        | inl tagged ↦
            rw found (rw tagged (λ e. (h, pv, found, inl (refl, has_publish_tag-has pv tagged))))
      ]
    ];
  }

publish-Tagged :
    (H : Host) (req : PublishRequest) → Returns (Tagged H req.volume_id) (publish H req)
unfolding publish
publish-Tagged H req =
    let device = publish_device_path req.volume_id in
    let fs_type = context_value default_fs fs_type_tag req.volume_context in
    last (ensure_volume H req device) λ new. last (ensure_target H req.target_path) λ mounted.
      last_next (ensure_filesystem H device fs_type) (
        last_next (ensure_mount H req device fs_type mounted) (
          last_next
            (if new
              then pure tt
              else internal H (resize_volume H req.volume_id vg_name req.target_path))
            (internal-Returns H (update-Tagged H req.volume_id))))

-- Where NodePublishVolume returns without an error, the volume has the tag: the object was just read
-- with the annotation, or the last call was a patch that the API server took, made from the object that
-- was just read and a tagged one: that object with the annotation "true" and with the collector's
-- finalizer, and with its other annotations, finalizers and fields.
pub node_publish_volume-Tagged :
    (H : Host) (req : PublishRequest) (h : History)
    → (node_publish_volume H req h).0 ≡ ok tt
    → Tagged H req.volume_id (node_publish_volume H req h).1
unfolding node_publish_volume
node_publish_volume-Tagged H req h = elim (Bool-cases (str_eq req.target_path "")) [
  | inl empty ↦ rw empty (λ e. cc)
  | inr filled ↦ rw filled (λ e. (publish-Tagged H req).returns h tt e)
]
