-- ===== src/Cli/Update/Replaced.antt =====
-- What the installation of a binary leaves of the disk.
use browser_skill.Prelude.{
  String, ◌≢◌, refl, ap, Option, none, some, List, [], ◌++◌, codes, arith, length-append,
}
use browser_skill.Files.{Bytes, Disk, Outcome, path_of, name_length}
use browser_skill.Files.Atomic.{IsAtomic, Untouched-IsAtomic}
use browser_skill.Files.Writers.{IsStamped, stamped_write-IsAtomic}
use browser_skill.Cli.Update.{action_replaced}
use browser_skill.Cli.Update.Install.{update_tmp, replace_binary_atomically}

-- The temporary file is not the target.
pub update_tmp-ne :
    (pid name : Bytes) (parent : Option String)
    → update_tmp pid (path_of parent name) name ≢ path_of parent name
unfolding update_tmp
update_tmp-ne pid name parent same = absurd (
    omega (
      arith,
      length-append {0} name (codes ".update-" ++ (pid ++ codes ".tmp")),
      ap name_length same,
    ))

-- Whatever the system makes of the calls: at every moment of the installation of a binary, every file
-- but the temporary one (which is not the target) is as before, or it is the target, and then the
-- whole new binary with the mode 755. After a success the target is new, after a failure it is old.
pub replace_binary_atomically-IsAtomic :
    (pid name binary : Bytes) (parent : Option String) (d : Disk) (os : List Outcome)
    → let target = path_of parent name in
      let tmp = update_tmp pid target name in
      (tmp ≢ target)
      × IsAtomic (IsStamped binary 0o755) tmp target d (
          replace_binary_atomically pid target binary
            (record { now = d; past = []; outcomes = os }))
unfolding replace_binary_atomically
replace_binary_atomically-IsAtomic pid name binary none d os =
    (update_tmp-ne pid name none, Untouched-IsAtomic _ _ _ d _ (λ p ne. refl, tt))
replace_binary_atomically-IsAtomic pid name binary (some dir) d os =
    let target = path_of (some dir) name in
    (
      update_tmp-ne pid name (some dir),
      stamped_write-IsAtomic (update_tmp pid target name) target binary action_replaced d os 0o755,
    )
