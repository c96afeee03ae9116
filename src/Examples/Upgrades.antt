-- ===== src/Examples/Upgrades.antt =====
-- Runs of the update task, of `bsk update`, of a write of daemon.json and of a pass over the skills.
use browser_skill.Prelude.{
  ℕ, ◌≡◌, ◌≢◌, ◌⊎◌, leb, refl, true, false, none, some, List, [], ◌∷◌, All, codes, ap, arith,
  text_discrete, ℕ_discrete,
}
use browser_skill.Files.{
  Bytes, FilePath, path_of, name_length, Disk, Outcome, succeeds, fails, World, tmp_beside,
  write_synced, create, write_all, rename, set_permissions, FilePath_discrete,
}
use browser_skill.Files.Atomic.{IsAtomic}
use browser_skill.Files.Writers.{IsStamped}
use browser_skill.Map.{lookup}
use browser_skill.Cli.Targets.{trim, is_whitespace}
use browser_skill.Cli.Update.{UpdateManifest, update_candidate}
use browser_skill.Cli.Update.Install.{update_tmp}
use browser_skill.Cli.Update.Tick.{Sources, Process, tick}
use browser_skill.Cli.Update.Verified.{IsUpgrade}
use browser_skill.Cli.Update.Upgrade.{tick-IsUpgrade}
use browser_skill.Cli.Update.Command.{
  DaemonSide, Says, install_candidate_with_client, install_candidate_with_client-Says,
}
use browser_skill.Daemon.Process.Info.{write_to_path, write_to_path-IsAtomic}

abbrev exe : FilePath
exe = path_of (some "/opt/bin") (codes "bsk")

abbrev daemon_info : FilePath
daemon_info = path_of (some "/opt/home") (codes "daemon.json")

-- An executable, and nothing else.
abbrev disk : Disk
disk p = some (record { content = b'o' ∷ []; mode = some 0o755 })

abbrev pid : Bytes
pid = b'7' ∷ []

abbrev new_binary : Bytes
new_binary = b'n' ∷ b'e' ∷ b'w' ∷ []

-- Every call succeeds; a write shows its first byte on the way.
abbrev fine : List Outcome
fine =
    succeeds []
    ∷ succeeds []
    ∷ succeeds []
    ∷ succeeds (new_binary ∷ [])
    ∷ succeeds []
    ∷ succeeds []
    ∷ succeeds []
    ∷ succeeds []
    ∷ succeeds []
    ∷ succeeds []
    ∷ succeeds []
    ∷ succeeds []
    ∷ succeeds []
    ∷ succeeds []
    ∷ succeeds []
    ∷ succeeds []
    ∷ []

abbrev manifest : UpdateManifest ℕ
manifest = record {
  version = 2;
  tag = "cli-v2";
  release_url = none;
  assets = ("linux", record { url = "https://example.org/bsk.tar.gz"; sha256 = some "0A" }) ∷ [];
}

-- A release with one archive, whose digest is one byte.
abbrev sources : Sources ℕ
sources = record {
  parse = λ s. some 1;
  le = leb;
  show = λ n. "2";
  manifest = some manifest;
  fetch_bytes = λ url. some (b'z' ∷ []);
  digest = λ c. 10 ∷ [];
  entries = λ k c. some (some (record { file_name = some "bsk"; content = some new_binary }) ∷ []);
  read_cache = λ c. none;
  show_cache = λ c. b'c' ∷ [];
}

abbrev process : Process
process = record {
  pid = pid;
  version = "1";
  platform = "linux";
  exe_path = some exe;
  cache_path = path_of (some "/opt/home") (codes "update-check.json");
}

abbrev ticked : World
ticked = (tick sources process true 0 100 (record { now = disk; past = []; outcomes = fine })).0

-- A test: this run does install the binary.
tick_installs : ticked.now exe ≡ some (record { content = new_binary; mode = some 0o755 })
unfolding tick update_candidate lookup text_discrete write_synced create write_all rename
    FilePath_discrete ℕ_discrete trim is_whitespace set_permissions
tick_installs = refl

not_the_cache : exe ≢ process.cache_path
not_the_cache p = absurd (omega (arith, ap name_length p))

not_its_tmp : exe ≢ tmp_beside "update-check.json" pid process.cache_path
unfolding tmp_beside
not_its_tmp p = absurd (omega (arith, ap name_length p))

tick-IsUpgrade_example :
    All
      (λ d'. (d' exe ≡ disk exe) ⊎ IsUpgrade sources process true 0 (d' exe))
      (ticked.now ∷ ticked.past)
tick-IsUpgrade_example =
    tick-IsUpgrade sources process true 0 100 (some "/opt/bin") (codes "bsk") disk fine
      not_the_cache not_its_tmp refl

abbrev side : DaemonSide
side = record { running = some true; stops = true; starts = false }

install_candidate_with_client-Says_example :
    Says (update_tmp pid exe (codes "bsk")) exe new_binary disk (
      install_candidate_with_client pid
        (some new_binary)
        (some exe)
        true
        side
        (record { now = disk; past = []; outcomes = fine }))
install_candidate_with_client-Says_example =
    install_candidate_with_client-Says pid (codes "bsk") new_binary (some "/opt/bin") true side disk
      fine

-- The write of the text fails halfway.
abbrev broken : List Outcome
broken = succeeds [] ∷ succeeds [] ∷ fails ((b'n' ∷ []) ∷ []) ∷ []

write_to_path-IsAtomic_example :
    let tmp = tmp_beside "daemon.json" pid daemon_info in
    (tmp ≢ daemon_info)
    × IsAtomic (IsStamped new_binary 0o600) tmp daemon_info disk (
        write_to_path pid daemon_info new_binary
          (record { now = disk; past = []; outcomes = broken }))
write_to_path-IsAtomic_example =
    write_to_path-IsAtomic pid (codes "daemon.json") new_binary (some "/opt/home") disk broken
