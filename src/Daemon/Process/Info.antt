-- ===== src/Daemon/Process/Info.antt =====
-- daemon.json on disk: `write_to_path` in crates/bsk-cli/src/daemon/info.rs.
use browser_skill.Prelude.{
  ◌≢◌, ap, String, Option, none, some, List, [], ◌++◌, codes, arith, length-append, refl,
}
use browser_skill.Files.{
  path_of, name_length, Bytes, FilePath, Disk, Outcome, Io, ◌>>=◌, ◌>>◌, pure, of_option,
  best_effort, syscall, write_synced, set_permissions, rename, tmp_beside,
}
use browser_skill.Files.Atomic.{IsAtomic, Untouched-IsAtomic}
use browser_skill.Files.Writers.{IsStamped, stamped_write-IsAtomic}

-- `payload` is the text of the info.
unfoldable pub write_to_path : Bytes → FilePath → Bytes → Io (Unit {0})
unfolding tmp_beside
write_to_path pid final_path payload = do
  dir ← of_option final_path.parent
  syscall
  let tmp = tmp_beside "daemon.json" pid final_path
  write_synced tmp payload
  set_permissions tmp 0o600
  rename tmp final_path
  best_effort syscall
  pure tt

tmp_beside-ne :
    (pid name : Bytes) (parent : Option String)
    → tmp_beside "daemon.json" pid (path_of parent name) ≢ path_of parent name
unfolding tmp_beside
tmp_beside-ne pid name parent same =
    absurd (omega (arith, length-append {0} name (codes ".tmp." ++ pid), ap name_length same))

-- Whatever the system makes of the calls: at every moment of a write of daemon.json, every file but
-- the temporary one (which is another) is as before, or it is daemon.json, and then it holds the whole
-- new text with the mode 600. After a success it is new, after a failure it is old.
pub write_to_path-IsAtomic :
    (pid name payload : Bytes) (parent : Option String) (d : Disk) (os : List Outcome)
    → let final_path = path_of parent name in
      let tmp = tmp_beside "daemon.json" pid final_path in
      (tmp ≢ final_path)
      × IsAtomic
          (IsStamped payload 0o600)
          tmp
          final_path
          d
          (write_to_path pid final_path payload (record { now = d; past = []; outcomes = os }))
unfolding write_to_path
write_to_path-IsAtomic pid name payload none d os =
    (tmp_beside-ne pid name none, Untouched-IsAtomic _ _ _ d _ (λ p ne. refl, tt))
write_to_path-IsAtomic pid name payload (some dir) d os =
    let final_path = path_of (some dir) name in
    (
      tmp_beside-ne pid name (some dir),
      stamped_write-IsAtomic (tmp_beside "daemon.json" pid final_path) final_path payload tt d os
          0o600,
    )
