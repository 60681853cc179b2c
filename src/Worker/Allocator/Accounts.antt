-- ===== src/Worker/Allocator/Accounts.antt =====
-- worker/allocator.go: where the process of one Allocate is when it returns.
use Prim.Native.String.{◌++◌ as ◌⧺◌}
use fraglands.Prelude.{
  ℕ, ◌+◌, ◌<◌, ◌≤◌, String, ◌≡◌, ◌≢◌, refl, subst, ap, ◌∙◌, inl, inr, true, false, some, string_eq,
  nat_eq, arith, Option-cases, Bool-cases,
}
use fraglands.Prelude.Decimal.{decimal}
use fraglands.Prelude.Dict.{get, put}
use fraglands.Core.Errors.{Result, ok, err, Result-cases}
use fraglands.Core.Preparation.{FailureReason}
use fraglands.Server.Supervisor.{
  ServerError, unknown_process, launch_error, ProcessSpec, Supervisor, is_set, proc_id, next_spec,
  start, find,
}
use fraglands.Server.Supervisor.Reserve.{Inv, port_free, spool_free}
use fraglands.Server.Supervisor.Reaping.{port_set, spool_set, Finished, start-Finished}
use fraglands.Orchestrator.{AllocatedProcess, mark_ready}
use fraglands.Worker.Allocator.{
  CleanupCause, AllocateError, allocation_error, cleanup_error, Allocator, Attempt, failure,
  wait_readiness, cleanup, fail_with_cleanup, await_process, allocate,
}
use fraglands.Worker.Allocator.Recovery.{Gone, cleanup-Cleaned}

-- The reservations of the next spec are free.
next_unset :
    (s : Supervisor)
    → Inv s
    → (port_set s (next_spec s).port ≡ false) × (spool_set s (next_spec s).spool_dir ≡ false)
unfolding is_set
next_unset s v = (ap is_set (port_free s v), ap is_set (spool_free s v))

module _ {E : Type 0} (specs : ℕ → ProcessSpec) where
  -- Where the process with the spec is behind an allocation from `a`: handed out and registered;
  -- gone, with its reservations; or registered and retained.
  abbrev pub Accounted :
      Attempt E
      → ProcessSpec
      → Allocator
      → Allocator × Result (AllocateError E) AllocatedProcess
      → Type 0
  Accounted w spec a (b, r) =
      ((d : String)
        → d ≢ proc_id spec.generation
        → get b.supervisor.processes d ≡ get a.supervisor.processes d)
      × ((q : AllocatedProcess)
          → r ≡ ok q
          → (q.generation ≡ spec.generation)
            × (spec.generation < b.supervisor.next_generation)
            × (q.connect_address ≡ ("127.0.0.1:" ⧺ decimal spec.port))
            × (q.ready ≡ true)
            × (w.readiness ≡ some (ok q.evidence))
            × ((proc : ℕ) × (w.launch spec ≡ ok proc)
                × (find {E = E} b.supervisor (proc_id spec.generation) ≡ ok proc))
            × (b.retained ≡ a.retained))
      × ((reason : FailureReason)
          → r ≡ err (allocation_error reason)
          → Gone E b.supervisor spec × (b.retained ≡ a.retained))
      × ((g : ℕ) (reason : FailureReason) (cause : CleanupCause E)
          → r ≡ err (cleanup_error g reason cause)
          → (g ≡ spec.generation)
            × (spec.generation < b.supervisor.next_generation)
            × ((proc : ℕ) × (w.launch spec ≡ ok proc)
                × (find {E = E} b.supervisor (proc_id spec.generation) ≡ ok proc)
                × (b.retained ≡ put a.retained g proc)))

  await_process-Accounted :
      (w : Attempt E) (a : Allocator) (proc : ℕ)
      → (specs proc).generation < a.supervisor.next_generation
      → w.launch (specs proc) ≡ ok proc
      → find {E = E} a.supervisor (proc_id (specs proc).generation) ≡ ok proc
      → Accounted w (specs proc) a (await_process specs w a proc)
  unfolding await_process fail_with_cleanup wait_readiness mark_ready
  await_process-Accounted w a proc below launched registered =
      let (kept, reaped) = cleanup-Cleaned {E = E} specs w.teardown a.supervisor proc in
      let c = cleanup {E = E} specs w.teardown a.supervisor proc in
      elim (Result-cases (wait_readiness w.type_name w.readiness)) [
        | inl (evidence, n) ↦ (
          (λ d ne. ground (arith, n)),
          (λ q h. (
            ground (arith, n, h),
            ground (arith, n, below),
            ground (arith, n, h),
            ground (arith, n, h),
            ground (arith, n, h),
            (proc, launched, ground (arith, n, registered)),
            ground (arith, n),
          )),
          (λ reason h. absurd (ground (arith, n, h))),
          (λ g reason cause h. absurd (ground (arith, n, h))),
        )
        | inr (cause, n) ↦ elim (Option-cases c.1) [
          | inl m ↦
              let (_, _, gone, others) = reaped m in
              (
                (λ d ne. ground (arith, n, m, others d)),
                (λ q h. absurd (ground (arith, n, m, h))),
                (λ reason h. (ground (arith, n, m, gone), ground (arith, n, m))),
                (λ g reason x h. absurd (ground (arith, n, m, h))),
              )
          | inr (x, m) ↦
              let same = kept (λ e. ground (arith, m, e)) in
              (
                (λ d ne. ground (arith, n, m, same)),
                (λ q h. absurd (ground (arith, n, m, h))),
                (λ reason h. absurd (ground (arith, n, m, h))),
                (λ g reason y h. (
                  ground (arith, n, m, h),
                  ground (arith, n, m, same, below),
                  (proc, launched, ground (arith, n, m, same, registered), ground (arith, n, m, h)),
                )),
              )
        ]
      ]

  untouched-Accounted :
      (w : Attempt E) (a : Allocator) (message : FailureReason)
      → Inv a.supervisor
      → find {E = E} a.supervisor (proc_id a.supervisor.next_generation) ≡ err unknown_process
      → Accounted w (next_spec a.supervisor) a (a, err (allocation_error message))
  untouched-Accounted w a message v fresh = (
    (λ d ne. refl),
    (λ q h. absurd (ground (arith, h))),
    (λ reason h. ((fresh, (next_unset a.supervisor v).0, (next_unset a.supervisor v).1), refl)),
    (λ g reason cause h. absurd (ground (arith, h))),
  )

  failed-Accounted :
      (w : Attempt E) (a : Allocator) (x : E) (s : Supervisor) (message : FailureReason)
      → Inv a.supervisor
      → w.launch (next_spec a.supervisor) ≡ err x
      → Finished E a.supervisor (w.launch (next_spec a.supervisor)) (s, err (launch_error x))
      → Accounted w
          (next_spec a.supervisor)
          a
          (record a { supervisor = s }, err (allocation_error message))
  failed-Accounted w a x s message v l (_, others, failed, _) =
      let (_, unknown, ports, spools) = failed x l in
      (
        others,
        (λ q h. absurd (ground (arith, h))),
        (λ reason h. (
          (
            unknown,
            ports (next_spec a.supervisor).port ∙ (next_unset a.supervisor v).0,
            spools (next_spec a.supervisor).spool_dir ∙ (next_unset a.supervisor v).1,
          ),
          refl,
        )),
        (λ g reason cause h. absurd (ground (arith, h))),
      )

  started-Accounted :
      (w : Attempt E) (a : Allocator) (proc : ℕ) (s : Supervisor)
      → specs proc ≡ next_spec a.supervisor
      → w.launch (next_spec a.supervisor) ≡ ok proc
      → Finished E a.supervisor (w.launch (next_spec a.supervisor)) (s, ok proc)
      → Accounted w
          (next_spec a.supervisor)
          a
          (await_process specs w (record a { supervisor = s }) proc)
  started-Accounted w a proc s same l (grown, others, _, done) =
      let b : Allocator = record a { supervisor = s } in
      let (_, found, _, _) = done proc l in
      let (rest, handed, gone, held) =
        subst (λ x. Accounted w x b (await_process specs w b proc)) same
          (await_process-Accounted w b proc (ground (arith, same, grown)) (ap w.launch same ∙ l)
            (ap (λ (x : ProcessSpec). find {E = E} s (proc_id x.generation)) same ∙ found)) in
      ((λ d ne. rest d ne ∙ others d ne), handed, gone, held)

  carry :
      (w : Attempt E) (spec : ProcessSpec) (a : Allocator)
      (x y : Allocator × Result (AllocateError E) AllocatedProcess)
      → x ≡ y
      → Accounted w spec a x
      → Accounted w spec a y
  carry w spec a x y e h = subst (Accounted w spec a) {x = x} {y = y} e h

  -- Allocate on a supervisor under its invariant, with a port left and no process of the next
  -- generation, where the launcher returns a handle with the spec it was given. A success is the
  -- process of that spec, ready with the evidence of its wait, and registered. An allocation error
  -- leaves no process: it is unknown to the supervisor, and its port and its spool are free. A
  -- cleanup error names the generation, whose process is registered and retained. No other process
  -- and no other retained handle changes.
  pub allocate_accounts :
      (text_of : ServerError E → String) (w : Attempt E) (a : Allocator)
      → Inv a.supervisor
      → a.supervisor.base_port + a.supervisor.next_generation ≤ 65536
      → find {E = E} a.supervisor (proc_id a.supervisor.next_generation) ≡ err unknown_process
      → ((proc : ℕ)
          → w.launch (next_spec a.supervisor) ≡ ok proc
          → specs proc ≡ next_spec a.supervisor)
      → Accounted w (next_spec a.supervisor) a (allocate specs text_of w a)
  unfolding allocate
  allocate_accounts text_of w a v room fresh honest =
      let spec = next_spec a.supervisor in
      let s = start w.launch a.supervisor in
      let f = start-Finished E w.launch a.supervisor v room in
      elim (Bool-cases w.has_revision) [
        | inr n ↦
            let f = failure "no revision to allocate a process for" in
            carry w spec a (a, err (allocation_error f)) (allocate specs text_of w a)
              (ground (arith, n)) (untouched-Accounted w a f v fresh)
        | inl n ↦ elim (Option-cases w.context_error) [
          | inr (e, m) ↦
              let f = failure ("allocation cancelled before start: " ⧺ e) in
              carry w spec a (a, err (allocation_error f)) (allocate specs text_of w a)
                (ground (arith, n, m)) (untouched-Accounted w a f v fresh)
          | inl m ↦ elim (Result-cases (w.launch spec)) [
            | inl (proc, l) ↦
                let r : s.1 ≡ ok proc = (f.3 proc l).0 in
                let b : Allocator = record a { supervisor = s.0 } in
                let done =
                  started-Accounted w a proc s.0 (honest proc l) l
                    (subst (λ x. Finished E a.supervisor (w.launch spec) (s.0, x)) r f) in
                carry w spec a (await_process specs w b proc) (allocate specs text_of w a)
                  (ground (arith, n, m, r)) done
            | inr (x, l) ↦
                let r : s.1 ≡ err (launch_error x) = (f.2 x l).0 in
                let b : Allocator = record a { supervisor = s.0 } in
                let message = failure ("launch failed: " ⧺ text_of (launch_error x)) in
                let done =
                  failed-Accounted w a x s.0 message v l
                    (subst (λ y. Finished E a.supervisor (w.launch spec) (s.0, y)) r f) in
                carry w spec a (b, err (allocation_error message)) (allocate specs text_of w a)
                  (ground (arith, n, m, r)) done
          ]
        ]
      ]
