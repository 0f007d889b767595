-- ===== src/Mounter.antt =====
-- pkg/common/mounter/mounter.go: the mounter, by the programs mount, umount, mkfs, file and grep.
pub mod Guards
use kubernetes_local_volume.Base.{
  ℕ, ◌+◌, ltb, String, ◌<>◌, str_eq, join, contains, has_prefix, trim_prefix, trim_space,
  remove_first, Bool, true, false, not, ◌&&◌, ◌||◌, Option, none, some, List, [], ◌∷◌, ◌++◌,
  if◌then◌else◌,
}
use kubernetes_local_volume.Fault.{
  Error, plain, missing_file, missing_executable, Outcome, ok, fail, panic, Reply, got, refused,
}
use kubernetes_local_volume.Host.{
  Host, Io, Output, created, opened_block, closed, removed, opened, read_dir, pure, throw, lift,
  continue, ◌>>=◌, ◌>>◌, attempt, reply_of, or_throw, exec, look_path, lstat, mkdir_all,
  remove_file, error_text,
}

module _ (H : Host) where
  -- The test of exec.LookPath that several operations begin with.
  require : String → Io (Unit {0})
  require command = do
    e ← look_path H command
    lift (elim e [
      | none ↦ ok tt
      | some (missing_executable _) ↦
          fail (plain (H.quote command <> " executable not found in $PATH"))
      | some other ↦ fail other
    ])

  -- The answer of a program of which only the failure matters.
  check : (Output → Error → String) → Output → Outcome (Unit {0})
  check message out = elim out.error [ none ↦ ok tt | some e ↦ fail (plain (message out e)) ]

  unfoldable pub ensure_folder : String → Io (Unit {0})
  unfolding require check
  ensure_folder target = do
    require "mkdir"
    out ← exec H "mkdir" ("-p" ∷ target ∷ [])
    lift (check (λ _ e. "mkdir for folder error: " <> error_text H e) out)

  open_block : String → Io (Option Error)
  open_block target h = (ok (H.open_block h target), opened_block target ∷ h)

  close_block : String → Io (Option Error)
  close_block target h = (ok (H.close h target), closed target ∷ h)

  -- The file is opened and closed again.
  touch_block : String → Io (Unit {0})
  unfolding open_block close_block
  touch_block target = do
    opening ← open_block target
    elim opening [
      | some e ↦ throw (plain ("create block error: " <> error_text H e))
      | none ↦ do
        closing ← close_block target
        elim closing [
          | some e ↦ throw (plain ("close block error: " <> error_text H e))
          | none ↦ pure tt
        ]
    ]

  unfoldable pub ensure_block : String → Io (Unit {0})
  unfolding touch_block
  ensure_block target = do
    fi ← lstat H target
    elim fi [
      | refused (missing_file _) ↦ touch_block target
      | refused e ↦ throw e
      | got true ↦ do attempt (remove_file H target); touch_block target
      | got false ↦ touch_block target
    ]

  run_failed : String → String → List String → Output → Error → String
  run_failed what command args out e =
      what
      <> " failed: "
      <> error_text H e
      <> " cmd: '"
      <> command
      <> " "
      <> join " " args
      <> "' output: "
      <> H.quote out.text

  abbrev mkfs_args : String → String → List String
  mkfs_args fs_type source =
      if str_eq fs_type "ext4" || str_eq fs_type "ext3" then "-F" ∷ source ∷ [] else source ∷ []

  unfoldable pub format : String → String → Io (Unit {0})
  unfolding require check run_failed
  format source fs_type = do
    let command = "mkfs." <> fs_type
    require command
    if str_eq fs_type ""
        then throw (plain "fs type is not specified for formatting the volume")
        else (if str_eq source ""
            then throw (plain "source is not specified for formatting the volume")
            else (do
              out ← exec H command (mkfs_args fs_type source)
              lift (check (run_failed "formatting disk" command (mkfs_args fs_type source)) out)))

  abbrev options_args : List String → List String
  options_args [] = []
  options_args (o ∷ os) = "-o" ∷ join "," (o ∷ os) ∷ []

  unfoldable pub run_mount : List String → Io (Unit {0})
  unfolding check run_failed
  run_mount args = do
    out ← exec H "mount" args
    lift (check (run_failed "mounting" "mount" args) out)

  create_file : String → Io (Unit {0})
  create_file path h = (or_throw (H.create h path), created path ∷ h)

  unfoldable pub mount_block : String → String → List String → Io (Unit {0})
  unfolding run_mount create_file
  mount_block source target opts =
      if str_eq source ""
      then throw (plain "source is not specified for mounting the volume")
      else if str_eq target ""
      then throw (plain "target is not specified for mounting the volume")
      else (do create_file target; run_mount (options_args opts ++ source ∷ target ∷ []))

  abbrev pub mount_args : String → String → String → List String → List String
  mount_args source target fs_type opts =
      "-t" ∷ fs_type ∷ (options_args opts ++ source ∷ target ∷ [])

  unfoldable pub mount : String → String → String → List String → Io (Unit {0})
  unfolding run_mount
  mount source target fs_type opts =
      if str_eq fs_type ""
      then throw (plain "fs type is not specified for mounting the volume")
      else if str_eq source ""
      then throw (plain "source is not specified for mounting the volume")
      else if str_eq target ""
      then throw (plain "target is not specified for mounting the volume")
      else (do mkdir_all H target; run_mount (mount_args source target fs_type opts))

  unmount_failed : String → Output → Error → String
  unmount_failed target out e =
      "unmounting failed: "
      <> error_text H e
      <> " cmd: 'umount "
      <> target
      <> "' output: "
      <> H.quote out.text

  unfoldable pub unmount : String → Io (Unit {0})
  unfolding check unmount_failed
  unmount target =
      if str_eq target ""
      then throw (plain "target is not specified for unmounting the volume")
      else (do out ← exec H "umount" (target ∷ []); lift (check (unmount_failed target) out))

  check_failed : String → String → String → Error → String
  check_failed what command text e =
      "checking "
      <> what
      <> " failed: "
      <> error_text H e
      <> " cmd: "
      <> H.quote command
      <> " output: "
      <> H.quote text

  formatted_answer : String → Output → Outcome Bool
  unfolding check_failed trim_prefix trim_space
  formatted_answer source out = elim out.error [
    | some e ↦ fail (plain (check_failed "formatting" "file" out.text e))
    | none ↦ ok (not (str_eq (trim_space (trim_prefix out.text (source <> ":"))) "data"))
  ]

  unfoldable pub is_formatted : String → Io Bool
  unfolding require formatted_answer
  is_formatted source = if str_eq source "" then throw (plain "source is not specified") else (do
    require "file"
    out ← exec H "file" ("-sL" ∷ source ∷ [])
    lift (formatted_answer source out))

  mounted_answer : String → Output → Outcome Bool
  unfolding check_failed trim_space contains
  mounted_answer target out =
      let text = trim_space out.text in
      elim out.error [
        | some e ↦
            if str_eq text "" then ok false else fail (plain (check_failed "mounted" "grep" text e))
        | none ↦ ok (contains text target)
      ]

  unfoldable pub is_mounted : String → Io Bool
  unfolding mounted_answer
  is_mounted target =
      if str_eq target ""
      then throw (plain "target is not specified for checking the mount")
      else (do out ← exec H "grep" (target ∷ "/proc/mounts" ∷ []); lift (mounted_answer target out))

  open_dir : String → Io (Unit {0})
  open_dir name h = (or_throw (H.open_file h name), opened name ∷ h)

  -- `f.Readdir(1)`; the directory is closed behind it.
  read_one : String → Io Bool
  read_one name h = (answer (H.read_dir_1 h name), read_dir name ∷ h)
    where
      answer : Option (Bool × Error) → Outcome Bool
      answer none = ok false
      answer (some (true, _)) = ok true
      answer (some (false, e)) = fail e

  unfoldable pub is_dir_empty : String → Io Bool
  unfolding open_dir read_one
  is_dir_empty name = do open_dir name; read_one name

  -- A directory is removed only if it is empty.
  unfoldable pub guard_empty : String → Bool → Io (Unit {0})
  guard_empty target_path false = pure tt
  guard_empty target_path true = do
    empty ← attempt (is_dir_empty target_path)
    lift (elim empty [
      | refused e ↦ fail (plain ("Check path empty error: " <> target_path <> error_text H e))
      | got false ↦ fail (plain ("Cannot remove Path not empty: " <> target_path))
      | got true ↦ ok tt
    ])

  unfoldable pub safe_path_remove : String → Io (Unit {0})
  safe_path_remove target_path = do
    fo ← lstat H target_path
    elim fo [
      | refused e ↦ throw e
      | got is_dir ↦ do
        mounted ← is_mounted target_path
        if mounted
            then throw (plain ("Path is mounted, not remove: " <> target_path))
            else (do guard_empty target_path is_dir; remove_file H target_path)
    ]

abbrev kubelet : String
kubelet = "/var/lib/kubelet/"

abbrev container_kubelet : String
container_kubelet = "/var/lib/container/kubelet/"

-- What one reference adds to the count.
unfoldable pub counts_ref : String → String → Bool
unfolding contains has_prefix remove_first
counts_ref mount_path ref_path =
    not (contains ref_path mount_path)
    && (if has_prefix mount_path kubelet
        then not
            (str_eq (remove_first ref_path container_kubelet) (remove_first mount_path kubelet))
        else if has_prefix mount_path container_kubelet
        then not
            (str_eq (remove_first ref_path kubelet) (remove_first mount_path container_kubelet))
        else false)

count_refs : String → ℕ → List String → ℕ
unfolding counts_ref
count_refs mount_path count [] = count
count_refs mount_path count (ref ∷ refs) =
    count_refs mount_path (if counts_ref mount_path ref then count + 1 else count) refs

unfoldable pub has_mount_refs : String → List String → Bool
unfolding count_refs
has_mount_refs mount_path mount_refs = ltb 0 (count_refs mount_path 0 mount_refs)
