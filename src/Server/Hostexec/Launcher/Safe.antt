-- ===== src/Server/Hostexec/Launcher/Safe.antt =====
-- server/hostexec/launcher.go: what NewLauncher has checked, and what a launch leaves on the disk.
use Prim.Native.String.{◌++◌ as ◌⧺◌, len, slice}
use text.Mathlib.TextPositions.{len-append, slice-append_left}
use fraglands.Server.Summary.{has_prefix}
use fraglands.Prelude.{
  eq_iff, beq_self, ◌<◌, String, ◌≡◌, ◌≢◌, subst, ◌⊎◌, inl, inr, Bool, true, false, some, List, [],
  string_eq, arith, Option-cases,
}
use fraglands.Prelude.Int.{to_ℕ}
use fraglands.Prelude.Dict.{get}
use fraglands.Core.Errors.{ok, err, Result-cases}
use fraglands.Server.Supervisor.{ProcessSpec, is_valid}
use fraglands.Server.Hostexec.System.{System, launched, bytes_eq, bytes_beq_iff}
use fraglands.Server.Hostexec.Launcher.{
  LaunchError, invalid_config, executable_not_allowed, Config, Launcher, Os, found, absent,
  resolve_executable, build_launcher, new_launcher, rel_under_root, check_resolved,
  create_spool_dir, command, settings_of, launch,
}

has_prefix-append : (prefix rest : String) → has_prefix (prefix ⧺ rest) prefix ≡ true
unfolding has_prefix
has_prefix-append prefix rest = ground (
  arith,
  len-append prefix rest,
  slice-append_left prefix rest,
  beq_self prefix,
  eq_iff (slice (prefix ⧺ rest) 0 (len prefix)) prefix,
)

module _ {D : Type 0} (os : Os D) where
  -- The executable passed its checks.
  abbrev pub Resolved : Config → D → Launcher → Type 0
  Resolved cfg disk l =
      (path : String) × (get cfg.allowlist cfg.executable ≡ some path)
      × (os.is_abs path ≡ true)
      × (l.exec_path ≡ os.clean path)
      × (os.stat disk l.exec_path ≡ found true true)

  resolve_executable-checks :
      (cfg : Config) (disk : D)
      → ((clean : String)
          → resolve_executable os cfg disk ≡ ok clean
          → (path : String) × (get cfg.allowlist cfg.executable ≡ some path)
            × (os.is_abs path ≡ true)
            × (clean ≡ os.clean path)
            × (os.stat disk clean ≡ found true true))
        × ((e : LaunchError)
            → resolve_executable os cfg disk ≡ err e
            → (e ≡ invalid_config) ⊎ (e ≡ executable_not_allowed))
  unfolding resolve_executable
  resolve_executable-checks cfg disk = (
    (λ c h. elim (Option-cases (get cfg.allowlist cfg.executable)) [
      | inl n ↦ absurd (ground (arith, n, h))
      | inr (path, n) ↦ (path, n, ground (arith, n, h), ground (arith, n, h), ground (arith, n, h))
    ]),
    (λ e h. ground (arith, h)),
  )

  abbrev Built : Config → String → Launcher → Type 0
  Built cfg path l =
      (l.exec_path ≡ path)
      × (l.spool_root ≡ os.clean cfg.spool_root)
      × (l.ready_line ≢ [])
      × (0 < to_ℕ l.ready_timeout)
      × (0 < to_ℕ l.stop_grace)
      × (0 < to_ℕ l.max_stdout_bytes)
      × (0 < to_ℕ l.max_stderr_bytes)

  build_launcher-checks :
      (cfg : Config) (path : String)
      → ((l : Launcher) → build_launcher os cfg path ≡ ok l → Built cfg path l)
        × ((e : LaunchError) → build_launcher os cfg path ≡ err e → e ≡ invalid_config)
  unfolding build_launcher
  build_launcher-checks cfg path = (
    (λ l h. (
      ground arith,
      ground arith,
      (λ e. ground (arith, bytes_beq_iff cfg.ready_line [])),
      ground arith,
      ground arith,
      ground arith,
      ground arith,
    )),
    (λ e h. ground arith),
  )

  -- A launcher that NewLauncher returns runs a regular executable file at an absolute path of the
  -- allowlist, has a clean absolute spool root, which MkdirAll has made, a readiness line that is not
  -- empty, and positive timeouts and stream bounds; and every refusal is one of the two
  -- configuration errors.
  pub new_launcher_checks :
      (cfg : Config) (disk : D)
      → let (made, r) = new_launcher os cfg disk in
        ((l : Launcher)
          → r ≡ ok l
          → Resolved cfg disk l
            × (os.is_abs cfg.spool_root ≡ true)
            × (l.spool_root ≡ os.clean cfg.spool_root)
            × (os.mkdir_all disk l.spool_root ≡ (made, true))
            × (l.ready_line ≢ [])
            × (0 < to_ℕ l.ready_timeout)
            × (0 < to_ℕ l.stop_grace)
            × (0 < to_ℕ l.max_stdout_bytes)
            × (0 < to_ℕ l.max_stderr_bytes))
        × ((e : LaunchError) → r ≡ err e → (e ≡ invalid_config) ⊎ (e ≡ executable_not_allowed))
  unfolding new_launcher
  new_launcher_checks cfg disk = elim (Result-cases (resolve_executable os cfg disk)) [
    | inr (x, n) ↦ (
      (λ l h. absurd (ground (arith, n, h))),
      (λ e h. (resolve_executable-checks cfg disk).1 e (ground (arith, n, h))),
    )
    | inl (clean, n) ↦
        let (path, listed, abs, same, file) = (resolve_executable-checks cfg disk).0 clean n in
        let built = build_launcher-checks cfg clean in
        (
          (λ l h.
              let b = built.0 l (ground (arith, n, h)) in
              let (_, _, line, timeout, grace, out, er) = b in
              (
                (path, listed, abs, ground (arith, b, same), ground (arith, b, file)),
                ground (arith, n, h),
                ground (arith, b),
                ground (arith, n, h, b),
                line,
                timeout,
                grace,
                out,
                er,
              )),
          (λ e h. ground (arith, n, h, built.1 e)),
        )
  ]

  -- What Mkdir and Remove do: a Mkdir that fails changes nothing, and Remove takes back one that
  -- succeeded.
  pub record IsTransactional : Type 0 where
    pub mkdir_fails : (d : D) (p : String) → (os.mkdir d p).1 ≡ false → (os.mkdir d p).0 ≡ d
    pub undone : (d : D) (p : String) → (os.mkdir d p).1 ≡ true → os.remove (os.mkdir d p).0 p ≡ d

  -- The path is strictly below the root: the relative path from there to it is neither the root
  -- itself nor leads out of it.
  abbrev pub IsBelow : String → String → Type 0
  IsBelow root path =
      (rel : String) × (os.rel root path ≡ some rel)
      × (rel ≢ ".")
      × (rel ≢ "..")
      × ((rest : String) → rel ≢ "../" ⧺ rest)

  rel_under_root-IsBelow :
      (root path : String) → rel_under_root os root path ≡ true → IsBelow root path
  unfolding rel_under_root
  rel_under_root-IsBelow root path h = elim (Option-cases (os.rel root path)) [
    | inl n ↦ absurd (ground (arith, n, h))
    | inr (rel, n) ↦ (
      rel,
      n,
      (λ e. ground (arith, n, h, eq_iff rel ".", e)),
      (λ e. ground (arith, n, h, eq_iff rel "..", e)),
      (λ rest e. ground (arith, n, h, e, has_prefix-append "../" rest)),
    )
  ]

  -- The spool directory was made under the root.
  abbrev pub Made : String → String → D → D → Type 0
  Made root dir disk after =
      (os.stat disk dir ≡ absent)
      × (os.mkdir disk dir ≡ (after, true))
      × IsBelow root dir
      × ((real : String) × (os.eval_symlinks after dir ≡ some real)
          × ((real_root : String) × (os.eval_symlinks after root ≡ some real_root)
              × IsBelow real_root real))

  create_spool_dir-Made :
      IsTransactional
      → (l : Launcher) (spool_dir : String) (disk : D)
      → let dir = os.clean spool_dir in
        let (after, r) = create_spool_dir os l spool_dir disk in
        ((e : LaunchError) → r ≡ err e → after ≡ disk)
        × ((d : String) → r ≡ ok d → (d ≡ dir) × Made l.spool_root dir disk after)
  unfolding create_spool_dir check_resolved
  create_spool_dir-Made h l spool_dir disk =
      let dir = os.clean spool_dir in
      let made = (os.mkdir disk dir).0 in
      (
        (λ e q. ground (arith, h.mkdir_fails disk dir, h.undone disk dir)),
        (λ d q. elim (Option-cases (os.eval_symlinks made dir)) [
          | inl n ↦ absurd (ground (arith, n, q))
          | inr (real, n) ↦ elim (Option-cases (os.eval_symlinks made l.spool_root)) [
            | inl m ↦ absurd (ground (arith, n, m, q))
            | inr (root, m) ↦ (
              ground (arith, n, m, q),
              (
                ground (arith, n, m, q),
                ground (arith, n, m, q),
                rel_under_root-IsBelow l.spool_root dir (ground (arith, n, m, q)),
                (
                  real,
                  ground (arith, n, m, q),
                  (
                    root,
                    ground (arith, n, m, q),
                    rel_under_root-IsBelow root real (ground (arith, n, m, q)),
                  ),
                ),
              ),
            )
          ]
        ]),
      )

  -- A launch that fails leaves the disk as it was. One that succeeds has a valid spec, has made the
  -- spool directory, which did not exist, strictly under the spool root, by name and with all links
  -- resolved, and has started the command of the launcher's executable on it; the process starts
  -- with the launcher's settings.
  pub launch_exact :
      IsTransactional
      → (l : Launcher) (spec : ProcessSpec) (ended : Bool) (environ : List String)
        (message : String) (disk : D)
      → let dir = os.clean spec.spool_dir in
        let (after, r) = launch os l spec ended environ message disk in
        ((e : LaunchError) → r ≡ err e → after ≡ disk)
        × ((sp : ProcessSpec) (s : System)
            → r ≡ ok (sp, s)
            → (sp ≡ spec)
              × (is_valid spec ≡ true)
              × (ended ≡ false)
              × Made l.spool_root dir disk after
              × (os.starts after (command os l spec environ dir) ≡ true)
              × (s ≡ launched (settings_of os l message)))
  unfolding launch
  launch_exact h l spec ended environ message disk =
      let dir = os.clean spec.spool_dir in
      let made = create_spool_dir-Made h l spec.spool_dir disk in
      elim (Result-cases (create_spool_dir os l spec.spool_dir disk).1) [
        | inr (x, n) ↦
            ((λ e q. ground (arith, n, q, made.0 x n)), (λ sp s q. absurd (ground (arith, n, q))))
        | inl (d, n) ↦
            let (same, m) = made.1 d n in
            (
              (λ e q. ground (arith, n, q, same, m.1, h.undone disk dir)),
              (λ sp s q. (
                ground (arith, n, q),
                ground (arith, n, q),
                ground (arith, n, q),
                subst (Made l.spool_root dir disk) (ground (arith, n, q)) m,
                ground (arith, n, q, same),
                ground (arith, n, q),
              )),
            )
      ]
