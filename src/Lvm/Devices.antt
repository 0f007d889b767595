-- ===== src/Lvm/Devices.antt =====
-- CreateVG of pkg/common/lvm/lvm.go at a volume group that exists.
use kubernetes_local_volume.Base.{◌≡◌, refl, String, str_eq, trim_space, true, ◌∷◌}
use kubernetes_local_volume.Fault.{ok}
use kubernetes_local_volume.Host.{Host, History, ran, run}
use kubernetes_local_volume.Host.Commands.{Command, count_vg, count_vg_pvs}
use kubernetes_local_volume.Lvm.{create_vg, count_pvs, atoi}

run-history : (H : Host) (c : Command) (h : History) → (run H c h).1 ≡ ran c ∷ h
unfolding run
run-history H c h = refl

-- Where the group is counted once no physical volume and no group is made: the number of the group's
-- physical volumes is read and returned.
pub create_vg_existing :
    (H : Host) (vg : String) (h : History) (line count : String)
    → (run H (count_vg vg) h).0 ≡ ok line
    → str_eq (trim_space line) "1" ≡ true
    → (run H (count_vg_pvs vg) (ran (count_vg vg) ∷ h)).0 ≡ ok count
    → create_vg H vg h ≡ (atoi (trim_space count), ran (count_vg_pvs vg) ∷ ran (count_vg vg) ∷ h)
unfolding create_vg count_pvs
create_vg_existing H vg h line count first one second =
    rw
      (
        run-history H (count_vg vg) h,
        first,
        one,
        run-history H (count_vg_pvs vg) (ran (count_vg vg) ∷ h),
        second,
      )
      refl
