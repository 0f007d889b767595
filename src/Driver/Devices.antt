-- ===== src/Driver/Devices.antt =====
-- The device of a logical volume, as pkg/driver/nodeserver.go makes, mounts and grows it and as
-- pkg/agent/gc_reconciler.go removes it.
use text.Mathlib.TextLemmas.{nil-append, cons-append}
use kubernetes_local_volume.Base.{
  String, Char, code, ◌<>◌, path_join, ◌≡◌, ◌≢◌, refl, ap, ◌∙◌, List, [], ◌∷◌, ◌++◌, split, join,
  extend_head, ◌==◌, Bool-cases, inl, inr,
}
use kubernetes_local_volume.Types.Keys.{slash, split-ne-nil}
use kubernetes_local_volume.Types.Objects.{Pv}
use kubernetes_local_volume.Agent.Gc.{gc_device_path}
use kubernetes_local_volume.Driver.Node.{publish_device_path}

extend_head-append :
    (c : Char) (ps qs : List String) → ps ≢ [] → extend_head c (ps ++ qs) ≡ extend_head c ps ++ qs
extend_head-append c [] qs h = absurd (h refl)
extend_head-append c (p ∷ ps) qs h = refl

slash-append : (t : String) → "/" <> t ≡ String.◌∷◌ slash t
slash-append t = cons-append slash String.[] t ∙ ap (String.◌∷◌ slash) (nil-append t)

-- The parts of two texts with a slash between them.
split-slash : (s t : String) → split b'/' (s <> "/" <> t) ≡ split b'/' s ++ split b'/' t
unfolding split
split-slash String.[] t = rw (nil-append, slash-append) refl
split-slash (String.◌∷◌ c s) t = rw cons-append (elim (Bool-cases (code c == b'/')) [
  | inl same ↦ rw same (ap (λ ps. "" ∷ ps) (split-slash s t))
  | inr other ↦ rw other (
      ap (extend_head c) (split-slash s t)
      ∙ extend_head-append c (split b'/' s) (split b'/' t) (split-ne-nil b'/' s))
])

-- The collector removes the device that the driver makes, formats and mounts for the volume of that
-- name, whatever the name.
pub gc_device_path-publish_device_path : (pv : Pv) → gc_device_path pv ≡ publish_device_path pv.name
unfolding path_join join
gc_device_path-publish_device_path pv =
    rw
      (
        split-slash "/dev/" ("local-volume-csi" <> "/" <> ("/" <> "/" <> pv.name)),
        split-slash "local-volume-csi" ("/" <> "/" <> pv.name),
        split-slash "/" pv.name,
        split-slash "/dev/" ("local-volume-csi" <> "/" <> pv.name),
        split-slash "local-volume-csi" pv.name,
      )
      (unfold split in refl)
