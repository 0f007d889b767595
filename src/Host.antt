-- ===== src/Host.antt =====
-- What the program does outside itself, as a monad: each call of the shell, of another program, of
-- the file system or of the API server is an event of a history, and the host answers it by the
-- history so far. The host is any function of that kind, so theorems hold for every behaviour of
-- the machine and the cluster, other actors' steps between two calls included.
pub mod Commands
pub mod Laws
use kubernetes_local_volume.Base.{
  ℕ, String, ◌<>◌, Bool, true, false, Option, none, some, List, [], ◌∷◌,
}
use kubernetes_local_volume.Fault.{
  Error, plain, status, missing_file, missing_object, missing_executable, not_a_number, Code,
  Outcome, ok, fail, panic, Reply, got, refused, outcome_of,
}
use kubernetes_local_volume.Types.Objects.{Pv, LocalVolume, NamespacedName}
use Commands.{Command, render}

pub data Event : Type 0 where
  -- `sh -c` with the command's output and errors together (utils.Run), or apart (lvm.run).
  ran : Command → Event
  ran_apart : Command → Event
  -- exec.Command(name, args...).CombinedOutput()
  executed : String → List String → Event
  looked_up : String → Event
  stated : String → Event
  lstated : String → Event
  made_dirs : String → Event
  created : String → Event
  opened_block : String → Event
  closed : String → Event
  removed : String → Event
  opened : String → Event
  read_dir : String → Event
  -- The API server.
  got_pv : String → Event
  patched_pv : String → String → Event
  updated_pv : Pv → Event
  got_lv : String → String → Event
  created_lv : LocalVolume → Event
  updated_lv_status : LocalVolume → Event
  bound_pod : NamespacedName → String → Event
  -- ResizeFs of k8s.io/kubernetes
  resized_fs : String → String → Event

abbrev pub History : Type 0
History = List Event

-- Output, and the error that is not nil where the program fails.
pub record Output : Type 0 where
  pub text : String
  pub error : Option Error

pub record Host : Type 0 where
  pub shell : History → String → Output
  pub exec : History → String → List String → Output
  pub look_path : History → String → Option Error
  -- The flag is FileInfo.IsDir.
  pub stat : History → String → Reply Bool
  pub lstat : History → String → Reply Bool
  pub mkdir_all : History → String → Option Error
  pub create : History → String → Option Error
  pub open_block : History → String → Option Error
  pub close : History → String → Option Error
  pub remove : History → String → Option Error
  pub open_file : History → String → Option Error
  -- The error of Readdir(1): `some true` is io.EOF, `some false` another error.
  pub read_dir_1 : History → String → Option (Bool × Error)
  pub get_pv : History → String → Reply Pv
  pub patch_pv : History → String → String → Option Error
  pub update_pv : History → Pv → Option Error
  pub get_lv : History → String → String → Reply LocalVolume
  pub create_lv : History → LocalVolume → Option Error
  pub update_lv_status : History → LocalVolume → Option Error
  pub bind_pod : History → NamespacedName → String → Option Error
  pub resize_fs : History → String → String → Reply Bool
  -- Pure functions of other packages: Error() of a gRPC status and of a strconv error, %q, json.Marshal
  -- of a volume, and strategicpatch.CreateTwoWayMergePatch.
  pub status_text : Code → String → String
  pub number_error_text : String → String
  -- The verb %q of fmt.
  pub quote : String → String
  pub marshal_pv : Pv → Reply String
  pub merge_patch : String → String → Reply String

-- A function of the program that calls the host.
abbrev pub Io {ℓ} : Type ℓ → Type ℓ
Io A = History → Outcome A × History

abbrev pub pure {ℓ} : {A : Type ℓ} → A → Io A
pure a h = (ok a, h)

abbrev pub throw {ℓ} : {A : Type ℓ} → Error → Io A
throw e h = (fail e, h)

abbrev pub lift {ℓ} : {A : Type ℓ} → Outcome A → Io A
lift o h = (o, h)

abbrev pub continue {ℓ κ} :
    {A : Type ℓ} {B : Type κ} → Outcome A → History → (A → Io B) → Outcome B × History
continue (ok a) h f = f a h
continue (fail e) h f = (fail e, h)
continue panic h f = (panic, h)

infixl 5 ◌>>=◌ ◌>>◌
abbrev pub ◌>>=◌ {ℓ κ} : {A : Type ℓ} {B : Type κ} → Io A → (A → Io B) → Io B
◌>>=◌ m f h = continue (m h).0 (m h).1 f

abbrev pub ◌>>◌ {ℓ κ} : {A : Type ℓ} {B : Type κ} → Io A → Io B → Io B
◌>>◌ m k h = continue (m h).0 (m h).1 (λ _. k)

-- `v, err := m` where the caller looks at `err` itself. A panic goes on.
abbrev pub reply_of {ℓ} : {A : Type ℓ} → Outcome A → Outcome (Reply A)
reply_of (ok a) = ok (got a)
reply_of (fail e) = ok (refused e)
reply_of panic = panic

abbrev pub attempt {ℓ} : {A : Type ℓ} → Io A → Io (Reply A)
attempt m h = (reply_of (m h).0, (m h).1)

-- `if err != nil { return err }`
abbrev pub or_throw : Option Error → Outcome (Unit {0})
or_throw none = ok tt
or_throw (some e) = fail e

module _ (H : Host) where
  -- `err.Error()`. The text of an error of another package is what its value here carries.
  abbrev pub error_text : Error → String
  error_text (plain s) = s
  error_text (status c s) = H.status_text c s
  error_text (missing_file s) = s
  error_text (missing_object s) = s
  error_text (missing_executable s) = s
  error_text (not_a_number s) = H.number_error_text s

  abbrev pub run_result : String → Output → Outcome String
  run_result cmd out = elim out.error [
    | none ↦ ok out.text
    | some e ↦ fail (
        plain (
          "Failed to run cmd: "
          <> cmd
          <> ", with out: "
          <> out.text
          <> ", with error: "
          <> error_text e))
  ]

  -- utils.Run
  unfoldable pub run : Command → Io String
  run c h = (run_result (render c) (H.shell h (render c)), ran c ∷ h)

  -- utils.IsFileExisting
  unfoldable pub is_file_existing : String → Io Bool
  is_file_existing filename h = (
    elim (H.stat h filename) [
      | got _ ↦ ok true
      | refused e ↦ elim e [ missing_file _ ↦ ok false | _ ↦ ok true ]
    ],
    stated filename ∷ h,
  )

  abbrev pub exec : String → List String → Io Output
  exec name args h = (ok (H.exec h name args), executed name args ∷ h)

  abbrev pub stat : String → Io (Reply Bool)
  stat path h = (ok (H.stat h path), stated path ∷ h)

  abbrev pub look_path : String → Io (Option Error)
  look_path file h = (ok (H.look_path h file), looked_up file ∷ h)

  abbrev pub lstat : String → Io (Reply Bool)
  lstat path h = (ok (H.lstat h path), lstated path ∷ h)

  abbrev pub mkdir_all : String → Io (Unit {0})
  mkdir_all path h = (or_throw (H.mkdir_all h path), made_dirs path ∷ h)

  abbrev pub remove_file : String → Io (Unit {0})
  remove_file path h = (or_throw (H.remove h path), removed path ∷ h)

  -- status.Error(codes.Internal, err.Error()) around a call's error, with a text in front.
  abbrev pub relabel {ℓ} : {A : Type ℓ} → String → Outcome A → Outcome A
  relabel message (ok a) = ok a
  relabel message (fail e) = fail (status Code.internal_code (message <> error_text e))
  relabel message panic = panic

  abbrev pub internal_outcome {ℓ} : {A : Type ℓ} → Outcome A → Outcome A
  internal_outcome (ok a) = ok a
  internal_outcome (fail e) = fail (status Code.internal_code (error_text e))
  internal_outcome panic = panic

  abbrev pub prefixed {ℓ} : {A : Type ℓ} → String → Io A → Io A
  prefixed message m h = (relabel message (m h).0, (m h).1)

  -- The same with no text in front.
  abbrev pub internal {ℓ} : {A : Type ℓ} → Io A → Io A
  internal m h = (internal_outcome (m h).0, (m h).1)
