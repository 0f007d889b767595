-- ===== src/Mounter/Guards.antt =====
-- The guards of SafePathRemove of pkg/common/mounter/mounter.go.
use kubernetes_local_volume.Base.{◌≡◌, refl, String, if◌then◌else◌, Bool, true, false, ◌∷◌}
use kubernetes_local_volume.Fault.{ok, got}
use kubernetes_local_volume.Host.{Host, History, lstated, removed}
use kubernetes_local_volume.Mounter.{is_mounted, is_dir_empty, guard_empty, safe_path_remove}

-- Where the test of the mount and the look into the directory answer, the directory is removed just
-- when it is not mounted and is empty by those answers: otherwise the history ends with that test or
-- that look.
safe_path_remove_guards :
    (H : Host) (target : String) (h : History) (mounted empty : Bool)
    → H.lstat h target ≡ got true
    → (is_mounted H target (lstated target ∷ h)).0 ≡ ok mounted
    → (is_dir_empty H target (is_mounted H target (lstated target ∷ h)).1).0 ≡ ok empty
    → let tested = (is_mounted H target (lstated target ∷ h)).1 in
      let read = (is_dir_empty H target tested).1 in
      (safe_path_remove H target h).1
      ≡ (if mounted then tested else if empty then removed target ∷ read else read)
unfolding safe_path_remove guard_empty
safe_path_remove_guards H target h true empty there test look = rw there (rw test refl)
safe_path_remove_guards H target h false true there test look = rw there (rw test (rw look refl))
safe_path_remove_guards H target h false false there test look = rw there (rw test (rw look refl))
