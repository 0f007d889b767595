-- ===== src/Lvm.antt =====
-- pkg/common/lvm/lvm.go and exec.go: volume groups, by the LVM tools on the host.
pub mod Devices
pub mod Claiming
use kubernetes_local_volume.Base.{
  ℕ, ◌==◌, String, ◌<>◌, str_eq, trim_space, parse_int, Bool, true, false, not, Option, none, some,
  List, [], ◌∷◌, ◌++◌, length, if◌then◌else◌,
}
use kubernetes_local_volume.Base.Int.{ℤ, pos}
use kubernetes_local_volume.Fault.{
  Error, not_a_number, Outcome, ok, fail, panic, Reply, got, refused, outcome_of,
}
use kubernetes_local_volume.Host.{
  Host, Io, Output, ran_apart, pure, throw, lift, continue, ◌>>=◌, ◌>>◌, attempt, reply_of, run,
  is_file_existing, error_text,
}
use kubernetes_local_volume.Host.Commands.{
  Command, render, count_vg, count_vg_pvs, pvcreate, vgcreate, pvdisplay, count_mounts, vgs,
}
use kubernetes_local_volume.Types.{device_chars}

abbrev pub device_path_prefix : String
device_path_prefix = "/dev/vd"

-- `strconv.Atoi(s)` and `strconv.ParseInt(s, 10, 64)`.
unfoldable pub atoi : String → Outcome ℤ
unfolding parse_int
atoi s = elim (parse_int s) [ none ↦ fail (not_a_number s) | some n ↦ ok n ]

-- VGInfo: of the fields only the two sizes are read. The tool prints them in units of one million
-- bytes with two decimals; here they are in hundredths of that unit.
pub record VgInfo : Type 0 where
  pub vg_size : ℕ
  pub vg_free : ℕ

module _ (H : Host) where
  -- isMounted
  unfoldable pub is_mounted : String → Io Bool
  unfolding run
  is_mounted mount_path = do
    out ← attempt (run H (count_mounts mount_path))
    pure (elim out [ refused _ ↦ false | got text ↦ not (str_eq (trim_space text) "0") ])

  -- The third test of the loop: `pvdisplay` fails at a device that no volume group uses.
  unfoldable pub unused : String → Io Bool
  unfolding run
  unused device_path = do
    shown ← attempt (run H (pvdisplay device_path))
    pure (elim shown [ refused _ ↦ true | got _ ↦ false ])

  -- The body of the loop: the device exists, is not mounted, and is not used by a volume group.
  unfoldable pub is_available : String → Io Bool
  unfolding is_mounted unused is_file_existing
  is_available device_path = do
    exists ← is_file_existing H device_path
    if exists
        then (do
          mounted ← is_mounted device_path
          if mounted then pure false else unused device_path)
        else pure false

  unfoldable pub device_loop : List String → List String → Io (List String)
  unfolding is_available
  device_loop result [] = pure result
  device_loop result (char ∷ chars) = do
    available ← is_available (device_path_prefix <> char)
    device_loop (if available then result ++ (device_path_prefix <> char) ∷ [] else result) chars

  unfoldable pub get_device_list : Io (List String)
  unfolding device_loop
  get_device_list = device_loop [] device_chars

  -- The group exists: the number of its physical volumes.
  unfoldable pub count_pvs : String → Io ℤ
  count_pvs vg_name = do pv_num ← run H (count_vg_pvs vg_name); lift (atoi (trim_space pv_num))

  unfoldable pub make_vg : String → Io ℤ
  unfolding run get_device_list
  make_vg vg_name = do
    devices ← get_device_list
    run H (pvcreate devices)
    run H (vgcreate vg_name devices)
    pure (pos (length devices))

  unfoldable pub create_vg : String → Io ℤ
  create_vg vg_name = do
    vgline ← run H (count_vg vg_name)
    if str_eq (trim_space vgline) "1" then count_pvs vg_name else make_vg vg_name

-- The groups of each report.
abbrev pub VgsOutput : Type 0
VgsOutput = List (List VgInfo)

-- The first report with a single group.
unfoldable pub single_vg : VgsOutput → Option VgInfo
single_vg [] = none
single_vg ((vg ∷ []) ∷ reports) = some vg
single_vg (_ ∷ reports) = single_vg reports

module _ (H : Host) (unmarshal : String → Reply VgsOutput) where
  -- The arguments that `run` of exec.go adds for a JSON report, before the others.
  abbrev json_args : List String
  json_args = "--reportformat=json" ∷ "--units=M" ∷ "--nosuffix" ∷ []

  abbrev vg_options : List String
  vg_options = "--options=vg_size,vg_free,vg_free_count,vg_extent_size" ∷ []

  run_json : Command → Io VgsOutput
  run_json cmd h = (output_of (H.shell h (render cmd)), ran_apart cmd ∷ h)
    where
      output_of : Output → Outcome VgsOutput
      output_of out = elim out.error [ some e ↦ fail e | none ↦ outcome_of (unmarshal out.text) ]

  unfoldable pub get_vg_info : String → Io (Option VgInfo)
  unfolding single_vg run_json
  get_vg_info vg_name = do
    report ← attempt (run_json (vgs (json_args ++ vg_options ++ vg_name ∷ [])))
    pure (elim report [ refused _ ↦ none | got reports ↦ single_vg reports ])
