-- ===== src/Server/Hostexec/Launcher.antt =====
-- server/hostexec/launcher.go: Config, NewLauncher, Launch and the spool directory, on the disk that
-- the calls of `os` read and change. Paths are those of `path/filepath` on Unix.
pub mod Safe
use Prim.Native.String.{◌++◌ as ◌⧺◌}
use fraglands.Prelude.{
  ℕ, zero, ◌*◌, ◌^◌, String, Bool, true, false, not, ◌&&◌, ◌||◌, Option, none, some, List, [], ◌∷◌,
  ◌++◌, ◌==◌, string_eq, nat_eq, if◌then◌else◌,
}
use fraglands.Prelude.Int.{ℤ, pos, negsuc, is_nonpos, to_ℕ}
use fraglands.Prelude.Decimal.{decimal}
use fraglands.Prelude.Dict.{Dict, get, size}
use fraglands.Core.Errors.{Result, ok, err}
use fraglands.Server.Supervisor.{ProcessSpec, is_valid}
use fraglands.Server.Summary.{has_prefix}
use fraglands.Server.Hostexec.Buffer.{Bytes}
use fraglands.Server.Hostexec.System.{Settings, System, launched, bytes_eq}

-- The sentinels of the launcher, the error of ProcessSpec.Validate, an ended context, and the other
-- errors of the system.
pub data LaunchError : Type 0 where
  invalid_config executable_not_allowed spool_traversal spool_exists : LaunchError
  invalid_spec context_ended system_error : LaunchError

pub record Config : Type 0 where
  pub allowlist : Dict String String
  pub executable : String
  pub spool_root : String
  pub ready_line : Bytes
  pub ready_timeout : ℤ
  pub stop_grace_period : ℤ
  pub max_stdout_bytes : ℤ
  pub max_stderr_bytes : ℤ

pub record Launcher : Type 0 where
  pub exec_path : String
  pub spool_root : String
  pub ready_line : Bytes
  pub ready_timeout : ℤ
  pub stop_grace : ℤ
  pub max_stdout_bytes : ℤ
  pub max_stderr_bytes : ℤ

-- `os.Stat`: a file with its mode, no file, or another error.
pub data Stat : Type 0 where
  found : (is_regular is_executable : Bool) → Stat
  absent unreadable : Stat

-- The command of a child.
pub record Command : Type 0 where
  pub path : String
  pub arguments : List String
  pub environment : List String

-- `os`, `path/filepath` and the start of a child, on the disk `D`; a Boolean is whether it succeeds.
pub record Os (D : Type 0) : Type 0 where
  pub is_abs : String → Bool
  pub clean : String → String
  pub rel : String → String → Option String
  pub stat : D → String → Stat
  pub mkdir : D → String → D × Bool
  pub mkdir_all : D → String → D × Bool
  pub remove : D → String → D
  pub eval_symlinks : D → String → Option String
  pub starts : D → Command → Bool

abbrev is_negative : ℤ → Bool
is_negative (pos _) = false
is_negative (negsuc _) = true

-- A zero stands for the default.
abbrev or_default : ℤ → ℕ → ℤ
or_default (pos zero) default = pos default
or_default z default = z

-- DefaultMaxStreamBytes
abbrev pub default_max_stream_bytes : ℕ
default_max_stream_bytes = 64 * 1024

-- DefaultStopGracePeriod, in nanoseconds
abbrev pub default_stop_grace_period : ℕ
default_stop_grace_period = 5 * 10 ^ 9

module _ {D : Type 0} (os : Os D) where
  -- NewLauncher, up to the executable: its clean path.
  unfoldable pub resolve_executable : Config → D → Result LaunchError String
  resolve_executable cfg disk =
      if size cfg.allowlist == 0
      then err invalid_config
      else if cfg.executable == ""
      then err invalid_config
      else elim (get cfg.allowlist cfg.executable) [
        | none ↦ err executable_not_allowed
        | some path ↦
            if not (os.is_abs path)
            then err executable_not_allowed
            else elim (os.stat disk (os.clean path)) [
              | found true true ↦ ok (os.clean path)
              | _ ↦ err executable_not_allowed
            ]
      ]

  -- NewLauncher, behind the spool root.
  unfoldable pub build_launcher : Config → String → Result LaunchError Launcher
  build_launcher cfg path =
      if cfg.ready_line == []
      then err invalid_config
      else if is_nonpos cfg.ready_timeout
      then err invalid_config
      else if is_negative cfg.stop_grace_period
      then err invalid_config
      else if is_negative cfg.max_stdout_bytes || is_negative cfg.max_stderr_bytes
      then err invalid_config
      else ok (record {
        exec_path = path;
        spool_root = os.clean cfg.spool_root;
        ready_line = cfg.ready_line;
        ready_timeout = cfg.ready_timeout;
        stop_grace = or_default cfg.stop_grace_period default_stop_grace_period;
        max_stdout_bytes = or_default cfg.max_stdout_bytes default_max_stream_bytes;
        max_stderr_bytes = or_default cfg.max_stderr_bytes default_max_stream_bytes;
      })

  -- NewLauncher
  unfoldable pub new_launcher : Config → D → D × Result LaunchError Launcher
  unfolding resolve_executable build_launcher
  new_launcher cfg disk = elim (resolve_executable cfg disk) [
    | err e ↦ (disk, err e)
    | ok path ↦
        if cfg.spool_root == ""
        then (disk, err invalid_config)
        else if not (os.is_abs cfg.spool_root)
        then (disk, err invalid_config)
        else let (made, done) = os.mkdir_all disk (os.clean cfg.spool_root) in
          if not done then (made, err invalid_config) else (made, build_launcher cfg path)
  ]

  -- relUnderRoot; `true` is no error.
  unfoldable pub rel_under_root : String → String → Bool
  unfolding has_prefix
  rel_under_root root dir = elim (os.rel root dir) [
    | none ↦ false
    | some rel ↦ not (rel == ".." || has_prefix rel "../") && not (rel == ".")
  ]

  -- createSpoolDir, behind the Mkdir: the links resolved.
  unfoldable pub check_resolved : String → String → D → D × Result LaunchError String
  unfolding rel_under_root
  check_resolved root dir disk = elim (os.eval_symlinks disk dir) [
    | none ↦ (os.remove disk dir, err system_error)
    | some resolved_dir ↦ elim (os.eval_symlinks disk root) [
      | none ↦ (os.remove disk dir, err system_error)
      | some resolved_root ↦
          if rel_under_root resolved_root resolved_dir
          then (disk, ok dir)
          else (os.remove disk dir, err spool_traversal)
    ]
  ]

  -- createSpoolDir
  unfoldable pub create_spool_dir : Launcher → String → D → D × Result LaunchError String
  unfolding rel_under_root check_resolved
  create_spool_dir l spool_dir disk =
      let dir = os.clean spool_dir in
      if not (os.is_abs spool_dir)
      then (disk, err spool_traversal)
      else if not (rel_under_root l.spool_root dir)
      then (disk, err spool_traversal)
      else elim (os.stat disk dir) [
        | found _ _ ↦ (disk, err spool_exists)
        | unreadable ↦ (disk, err system_error)
        | absent ↦
            let (made, done) = os.mkdir disk dir in
            if not done then (made, err system_error) else check_resolved l.spool_root dir made
      ]

  -- start, as far as the command goes; `environ` is that of the parent.
  unfoldable pub command : Launcher → ProcessSpec → List String → String → Command
  unfolding decimal
  command l spec environ dir = record {
    path = l.exec_path;
    arguments =
        ("--generation=" ⧺ decimal spec.generation)
        ∷ ("--port=" ⧺ decimal spec.port)
        ∷ ("--spool-dir=" ⧺ dir)
        ∷ [];
    environment =
        environ
        ++ (("FRAGLANDS_GENERATION=" ⧺ decimal spec.generation)
            ∷ ("FRAGLANDS_PORT=" ⧺ decimal spec.port)
            ∷ ("FRAGLANDS_SPOOL_DIR=" ⧺ dir)
            ∷ []);
  }

  -- What a process takes from its launcher.
  abbrev pub settings_of : Launcher → String → Settings
  settings_of l message = record {
    ready_line = l.ready_line;
    max_stdout_bytes = to_ℕ l.max_stdout_bytes;
    max_stderr_bytes = to_ℕ l.max_stderr_bytes;
    timeout_message = message;
  }

  -- Launch: whether the context has ended, the environment, and the message of a readiness timeout.
  unfoldable pub launch :
      Launcher
      → ProcessSpec
      → Bool
      → List String
      → String
      → D
      → D × Result LaunchError (ProcessSpec × System)
  unfolding create_spool_dir command launched is_valid
  launch l spec ended environ message disk =
      if not (is_valid spec)
      then (disk, err invalid_spec)
      else if ended
      then (disk, err context_ended)
      else let (made, r) = create_spool_dir l spec.spool_dir disk in
        elim r [
          | err e ↦ (made, err e)
          | ok dir ↦
              if os.starts made (command l spec environ dir)
              then (made, ok (spec, launched (settings_of l message)))
              else (os.remove made dir, err system_error)
        ]
