-- ===== src/Driver/Filesystem.antt =====
-- pkg/driver/utils.go.
use kubernetes_local_volume.Base.{
  String, ◌<>◌, str_eq, split, trim_space, none, some, List, [], ◌∷◌, if◌then◌else◌,
}
use kubernetes_local_volume.Fault.{Error, plain, Outcome, ok, fail}
use kubernetes_local_volume.Host.{Host, Io, Output, pure, lift, ◌>>=◌, exec}

abbrev pub err_parse : Error
err_parse = plain "Cannot parse output of blkid"

-- The loop over the lines of blkid. A line is a key and a value; any other line ends the loop.
unfoldable pub find_type : List String → Outcome String
unfolding split trim_space
find_type [] = fail err_parse
find_type (line ∷ lines) = elim (split b'=' (trim_space line)) [
  | [] ↦ fail err_parse
  | key ∷ [] ↦ fail err_parse
  | key ∷ value ∷ [] ↦ if str_eq key "TYPE" then ok value else find_type lines
  | key ∷ value ∷ more ∷ rest ↦ fail err_parse
]

abbrev pub file_args : String → List String
file_args device_path = "-bsL" ∷ device_path ∷ []

abbrev pub blkid_args : String → List String
blkid_args device_path = "-c" ∷ "/dev/null" ∷ "-o" ∷ "export" ∷ device_path ∷ []

abbrev pub mkfs_args : String → String → List String
mkfs_args fstype device_path = "-t" ∷ fstype ∷ device_path ∷ []

-- A program that ran without an error: its output.
abbrev pub output_of : Output → Outcome String
output_of out = elim out.error [ none ↦ ok out.text | some e ↦ fail e ]

module _ (H : Host) where
  unfoldable pub format_device : String → String → Io (Unit {0})
  format_device device_path fstype = do
    out ← exec H "mkfs" (mkfs_args fstype device_path)
    lift (elim out.error [
      | none ↦ ok tt
      | some _ ↦ fail (plain ("FormatDevice error: " <> out.text))
    ])

  -- The second part, where `file` saw something on the device.
  unfoldable pub read_blkid : String → Io String
  unfolding find_type
  read_blkid device_path = do
    out ← exec H "blkid" (blkid_args device_path)
    text ← lift (output_of out)
    lift (find_type (split b'\n' text))

  unfoldable pub check_fs_type : String → Io String
  unfolding read_blkid
  check_fs_type device_path = do
    out ← exec H "file" (file_args device_path)
    text ← lift (output_of out)
    if str_eq (trim_space text) "data" then pure "" else read_blkid device_path
