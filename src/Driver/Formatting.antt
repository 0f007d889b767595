-- ===== src/Driver/Formatting.antt =====
-- Looks at a device and runs of mkfs, by their order in the history (nodeserver.go, utils.go of
-- pkg/driver).
pub mod Publication
use kubernetes_local_volume.Base.{
  String, str_eq, not, eq_iff, split, trim_space, ◌≡◌, ◌⊎◌, inl, inr, refl, Bool, true, false, List,
  [], ◌∷◌, if◌then◌else◌, Bool-cases, ap, ◌∙◌,
}
use kubernetes_local_volume.Fault.{
  Outcome, ok, fail, panic, Reply, got, refused, missing_file, plain, status, missing_object,
  missing_executable, not_a_number,
}
use kubernetes_local_volume.Host.{
  Host, Io, History, Event, executed, stat, mkdir_all, pure, lift, ◌>>=◌, ◌>>◌, continue, internal,
  error_text,
}
use kubernetes_local_volume.Host.Laws.{
  Keeps, Ends, bind, next, bind-Ends, pure-Keeps, throw-Keeps, lift-Keeps, attempt-Keeps,
  internal-Keeps, if-Keeps, prefixed-Ends,
}
use kubernetes_local_volume.Driver.Filesystem.{
  find_type, file_args, blkid_args, output_of, format_device, read_blkid, check_fs_type,
}
use kubernetes_local_volume.Driver.Node.{
  PublishRequest, create_volume, fail_internal, ensure_filesystem, ensure_volume, ensure_target,
  ensure_mount, publish, node_publish_volume, context_value, lvm_type_tag, linear_type,
}
use kubernetes_local_volume.Driver.Routine.{
  routine, create_volume-Keeps, resize_volume-Keeps, update_pv_publish_success_tag-Keeps,
  is_mounted-Keeps, mount-Keeps,
}
use kubernetes_local_volume.Types.{vg_name}

not-true : (b : Bool) → not b ≡ true → b ≡ false
not-true true e = cc
not-true false e = refl

module _ (H : Host) where
  -- The last thing done is a look at the device that found no file system: `file` calls it data, or
  -- `blkid` gives an empty type.
  pub record SeenBlank (device : String) (h : History) : Type 0 where
    pub before : History
    pub program : String
    pub args : List String
    pub looked : h ≡ executed program args ∷ before
    pub blank :
        ((program ≡ "file")
          × (args ≡ file_args device)
          × ((text : String) × (output_of (H.exec before "file" (file_args device)) ≡ ok text)
              × (trim_space text ≡ "data")))
        ⊎ ((program ≡ "blkid")
            × (args ≡ blkid_args device)
            × ((text : String) × (output_of (H.exec before "blkid" (blkid_args device)) ≡ ok text)
                × (find_type (split b'\n' text) ≡ ok "")))

  -- A run of mkfs names one device, which was seen to be blank.
  abbrev pub Formats : List String → History → Type 0
  Formats (flag ∷ fstype ∷ device ∷ []) h = SeenBlank device h
  Formats _ h = ⊥

  abbrev pub Allowed : Event → History → Type 0
  Allowed (executed name args) h = if str_eq name "mkfs" then Formats args h else Unit {0}
  Allowed _ h = Unit {0}

  -- Every run of mkfs in the history comes directly behind such a look at the same device.
  abbrev pub FormatsBlank : History → Type 0
  FormatsBlank [] = Unit {0}
  FormatsBlank (e ∷ h) = Allowed e h × FormatsBlank h

  pub allowed_routine :
      (e : Event) → routine e ≡ true → (h : History) → FormatsBlank h → FormatsBlank (e ∷ h)
  allowed_routine (executed name args) r h g = rw (not-true (str_eq name "mkfs") r) (tt, g)
  allowed_routine _ r h g = (tt, g)

  -- What a look at the device leaves for the answer `o`.
  abbrev Looked : String → Outcome String × History → Type 0
  Looked device (o, h) = FormatsBlank h × (o ≡ ok "" → SeenBlank device h)

  read_blkid-Looked :
      (device : String) (h : History) → FormatsBlank h → Looked device (read_blkid H device h)
  unfolding read_blkid
  read_blkid-Looked device h g = go (output_of (H.exec h "blkid" (blkid_args device))) refl
    where
      go :
          (o : Outcome String)
          → output_of (H.exec h "blkid" (blkid_args device)) ≡ o
          → Looked device (
              continue o
                (executed "blkid" (blkid_args device) ∷ h)
                (λ text. lift (find_type (split b'\n' text))))
      go (ok text) e = (
        (tt, g),
        λ empty. record {
          before = h;
          program = "blkid";
          args = blkid_args device;
          looked = refl;
          blank = inr (refl, refl, (text, e, empty));
        },
      )
      go (fail x) e = ((tt, g), λ empty. cc)
      go panic e = ((tt, g), λ empty. cc)

  check_fs_type-Looked :
      (device : String) (h : History) → FormatsBlank h → Looked device (check_fs_type H device h)
  unfolding check_fs_type
  check_fs_type-Looked device h g = go (output_of (H.exec h "file" (file_args device))) refl
    where
      asked : History
      asked = executed "file" (file_args device) ∷ h

      go :
          (o : Outcome String)
          → output_of (H.exec h "file" (file_args device)) ≡ o
          → Looked device (
              continue o asked
                (λ text. if str_eq (trim_space text) "data" then pure "" else read_blkid H device))
      go (ok text) e = elim (Bool-cases (str_eq (trim_space text) "data")) [
        | inl raw ↦ rw raw (
          (tt, g),
          λ empty. record {
            before = h;
            program = "file";
            args = file_args device;
            looked = refl;
            blank = inl (refl, refl, (text, e, (eq_iff (trim_space text) "data").0 raw));
          },
        )
        | inr seen ↦ rw seen (read_blkid-Looked device asked (tt, g))
      ]
      go (fail x) e = ((tt, g), λ empty. cc)
      go panic e = ((tt, g), λ empty. cc)

  format_device-Keeps :
      (device fstype : String) (h : History)
      → FormatsBlank h
      → SeenBlank device h
      → FormatsBlank (format_device H device fstype h).1
  unfolding format_device
  format_device-Keeps device fstype h g s = (s, g)

  check_fs_type-Ends :
      (device : String)
      → Ends FormatsBlank (λ t h. t ≡ "" → SeenBlank device h) (check_fs_type H device)
  check_fs_type-Ends device = record {
    ends = λ h g.
        let (kept, seen) = check_fs_type-Looked device h g in
        (kept, λ t answered empty. seen (answered ∙ ap ok empty));
  }

  pub ensure_filesystem-Keeps :
      (device fstype : String) → Keeps FormatsBlank (ensure_filesystem H device fstype)
  unfolding ensure_filesystem
  ensure_filesystem-Keeps device fstype =
      bind-Ends _ (prefixed-Ends H "check fs type err: " (check_fs_type-Ends device)) λ t h g seen.
        elim (Bool-cases (str_eq t "")) [
          | inl blank ↦
              rw blank (format_device-Keeps device fstype h g (seen ((eq_iff t "").0 blank)))
          | inr other ↦ rw other g
        ]
