-- ===== src/Host/Commands.antt =====
-- The shell command lines that the program puts together with fmt.Sprintf, each with the values that
-- are put in, and the text that the shell is given.
use kubernetes_local_volume.Base.{ℕ, String, ◌<>◌, join, show_ℕ, show_ℤ, List}
use kubernetes_local_volume.Base.Int.{ℤ}
use kubernetes_local_volume.Types.{nsenter_cmd}

pub data Command : Type 0 where
  -- pkg/driver/nodeserver.go
  vgck : String → Command
  lvcreate_striping : ℤ → String → ℕ → String → String → Command
  lvcreate_linear : String → ℕ → String → String → Command
  lv_size : String → Command
  lvextend : ℕ → String → String → Command
  -- pkg/agent/gc_reconciler.go
  lvremove : String → Command
  -- pkg/common/lvm/lvm.go
  count_vg : String → Command
  count_vg_pvs : String → Command
  pvcreate : List String → Command
  vgcreate : String → List String → Command
  pvdisplay : String → Command
  count_mounts : String → Command
  vgs : List String → Command

unfoldable pub render : Command → String
unfolding join show_ℕ show_ℤ
render (vgck vg) = nsenter_cmd <> " vgck " <> vg
render (lvcreate_striping stripes id size unit vg) =
    nsenter_cmd
    <> " lvcreate -i "
    <> show_ℤ stripes
    <> " -n "
    <> id
    <> " -L "
    <> show_ℕ size
    <> unit
    <> " "
    <> vg
render (lvcreate_linear id size unit vg) =
    nsenter_cmd <> " lvcreate -n " <> id <> " -L " <> show_ℕ size <> unit <> " " <> vg
render (lv_size device) =
    nsenter_cmd <> " lvdisplay " <> device <> " | grep 'LV Size' | awk '{print $3}'"
render (lvextend size unit device) =
    nsenter_cmd <> " lvextend -L" <> show_ℕ size <> unit <> " " <> device
render (lvremove device) = nsenter_cmd <> " lvremove -f " <> device <> " "
render (count_vg vg) =
    nsenter_cmd <> " vgdisplay " <> vg <> " | grep 'VG Name' | grep " <> vg
    <> " | grep -v grep | wc -l"
render (count_vg_pvs vg) =
    nsenter_cmd <> " vgdisplay " <> vg <> " | grep 'Cur PV' | grep -v grep | awk '{print $3}'"
render (pvcreate devices) = nsenter_cmd <> " pvcreate " <> join " " devices
render (vgcreate vg devices) = nsenter_cmd <> " vgcreate " <> vg <> " " <> join " " devices
render (pvdisplay device) = nsenter_cmd <> " pvdisplay " <> device
render (count_mounts path) = nsenter_cmd <> " mount | grep " <> path <> " | grep -v grep | wc -l"
render (vgs args) = nsenter_cmd <> " vgs" <> " " <> join " " args
