-- ===== src/Probes/Stopped.antt =====
-- How the loop of `StartPinger` ends.
use kube_combo.Prelude.{ℕ, String, ◌≡◌, sym, ◌∙◌, ◌≢◌, ◌↔◌, inl, inr, Bool, true, false, ◌&&◌}
use kube_combo.Prelude.{Option, none, some, List, [], ◌∷◌, arith, if◌then◌else◌, ◌!=◌, ==_cases, Go}
use kube_combo.Prelude.{ret, Io, pure, Bool-cases, >>=-ret, >>=-of_ret, ret-world, bool_eq, nat_eq}
use kube_combo.Prelude.{string_eq, option_eq, list_eq}
use kube_combo.Probes.{Configuration, Network}
use kube_combo.Probes.Check.{check, Event, tick, stop, Status, exited, stopped, waiting, job_done}
use kube_combo.Probes.Check.{uses_metrics, is_failed, run_loop}
use kube_combo.Probes.Check.{start_pinger}

code_of :
    {W : Type 0} (a b : ℕ) (w v : W)
    → ◌≡◌ {A = Go (Status × W)} (ret (exited a, w)) (ret (exited b, v))
    → b ≡ a
code_of a b w v h = ground arith

not_waiting :
    {W : Type 0} (b : Bool) (code : ℕ) (w v : W)
    → pure (if b then job_done else waiting) w ≢ ret (exited code, v)
not_waiting true code w v h = cc
not_waiting false code w v h = cc

not_stopped :
    {W : Type 0} (b : Bool) (code : ℕ) (w v : W)
    → pure (if b then job_done else stopped) w ≢ ret (exited code, v)
not_stopped true code w v h = cc
not_stopped false code w v h = cc

module _ (net : Network) (config : Configuration) where
  abbrev checks : Io net.World (Option String)
  checks = check net config (uses_metrics net config)

  -- A check that gives an error is followed by a tick, after checks without error and their ticks.
  pub data FailsAtTick : List Event → net.World → net.World → Type 0 where
    fails :
        {es : List Event} {w v : net.World} (e : String)
        → check net config (uses_metrics net config) w ≡ ret (some e, v)
        → FailsAtTick (tick ∷ es) w v
    passes :
        {es : List Event} {w u v : net.World}
        → check net config (uses_metrics net config) w ≡ ret (none, u)
        → FailsAtTick es u v
        → FailsAtTick (tick ∷ es) w v

  -- The loop after a check at a tick.
  abbrev go_on : List Event → Bool → Io net.World Status
  go_on events happened =
      if config.mode != "server"
      then pure job_done
      else if happened && config.exit_code != 0
      then pure (exited config.exit_code)
      else run_loop net config events happened

  abbrev Exits : List Event → ℕ → net.World → net.World → Type 0
  Exits events code w v =
      (config.mode ≡ "server") × (code ≡ config.exit_code) × (code ≢ 0) × FailsAtTick events w v

  after_passing :
      (events : List Event) (code : ℕ) (u v : net.World)
      → ((run_loop net config events false u ≡ ret (exited code, v)) → Exits events code u v)
      → go_on events false u ≡ ret (exited code, v)
      → Exits events code u v
  after_passing events code u v ih h = elim (Bool-cases (config.mode != "server")) [
    | inl job ↦ absurd (not_waiting true code u v (rw job at h))
    | inr server ↦ ih (rw server at h)
  ]

  after_failing :
      (events : List Event) (code : ℕ) (u v : net.World)
      → config.exit_code ≢ 0
      → go_on events true u ≡ ret (exited code, v)
      → (config.mode ≡ "server") × (code ≡ config.exit_code) × (code ≢ 0) × (v ≡ u)
  after_failing events code u v nonzero h =
      let n : (config.exit_code != 0) ≡ true = ground arith in
      elim (Bool-cases (config.mode != "server")) [
        | inl job ↦ absurd (not_waiting true code u v (rw job at h))
        | inr server ↦
            let k = rw n at rw server at h in
            let same : code ≡ config.exit_code = code_of config.exit_code code u v k in
            (ground arith, same, ground arith, sym (ret-world _ _ u v k))
      ]

  after_check-exited :
      (events : List Event) (e : Option String) (code : ℕ) (w u v : net.World)
      → config.exit_code ≢ 0
      → checks w ≡ ret (e, u)
      → ((run_loop net config events false u ≡ ret (exited code, v)) → Exits events code u v)
      → go_on events (is_failed net config false e) u ≡ ret (exited code, v)
      → Exits (tick ∷ events) code w v
  after_check-exited events none code w u v nonzero got ih h =
      let (p, q, r, rest) = after_passing events code u v ih h in (p, q, r, passes got rest)
  after_check-exited events (some e) code w u v nonzero got ih h =
      let (p, q, r, moved) = after_failing events code u v nonzero h in
      (p, q, r, fails e (rw (← moved) at got))

  run_loop-exited :
      (events : List Event) (code : ℕ) (w v : net.World)
      → config.exit_code ≢ 0
      → run_loop net config events false w ≡ ret (exited code, v)
      → Exits events code w v
  unfolding run_loop
  run_loop-exited [] code w v nonzero h =
      let (e, u, got, rest) = >>=-ret checks _ w v (exited code) h in
      absurd (not_waiting (config.mode != "server") code u v rest)
  run_loop-exited (stop ∷ events) code w v nonzero h =
      let (e, u, got, rest) = >>=-ret checks _ w v (exited code) h in
      absurd (not_stopped (config.mode != "server") code u v rest)
  run_loop-exited (tick ∷ events) code w v nonzero h =
      let (e, u, got, rest) = >>=-ret checks _ w v (exited code) h in
      after_check-exited events e code w u v nonzero got (run_loop-exited events code u v nonzero)
        rest

  -- With the code 0 the loop goes on after errors.
  run_loop-ne-exited :
      (events : List Event) (happened : Bool) (code : ℕ) (w v : net.World)
      → config.exit_code ≡ 0
      → run_loop net config events happened w ≢ ret (exited code, v)
  unfolding run_loop
  run_loop-ne-exited [] happened code w v zero_code h =
      let (e, u, got, rest) = >>=-ret checks _ w v (exited code) h in
      not_waiting (config.mode != "server") code u v rest
  run_loop-ne-exited (stop ∷ events) happened code w v zero_code h =
      let (e, u, got, rest) = >>=-ret checks _ w v (exited code) h in
      not_stopped (config.mode != "server") code u v rest
  run_loop-ne-exited (tick ∷ events) happened code w v zero_code h =
      let (e, u, got, rest) = >>=-ret checks _ w v (exited code) h in
      let n : (is_failed net config happened e && config.exit_code != 0) ≡ false = ground arith in
      elim (Bool-cases (config.mode != "server")) [
        | inl job ↦ not_waiting true code u v (rw job at rest)
        | inr server ↦
            run_loop-ne-exited events (is_failed net config happened e) code u v zero_code
              (rw n at rw server at rest)
      ]

  FailsAtTick-run_loop :
      {events : List Event} {w v : net.World}
      → config.mode ≡ "server"
      → config.exit_code ≢ 0
      → FailsAtTick events w v
      → run_loop net config events false w ≡ ret (exited config.exit_code, v)
  unfolding run_loop
  FailsAtTick-run_loop server nonzero (fails {es = es} {w = w} {v = v} e h) =
      let t : (config.mode != "server") ≡ false = ground arith in
      let n : (config.exit_code != 0) ≡ true = ground arith in
      >>=-of_ret checks (λ e. go_on es (is_failed net config false e)) w v (some e) h ∙ rw (t, n)
  FailsAtTick-run_loop server nonzero (passes {es = es} {w = w} {u = u} {v = v} h rest) =
      let t : (config.mode != "server") ≡ false = ground arith in
      >>=-of_ret checks (λ e. go_on es (is_failed net config false e)) w u none h
      ∙ rw t (FailsAtTick-run_loop server nonzero rest)

  -- The loop exits with a code exactly if it runs as a server, the code is the configured one and
  -- is not 0, and a tick follows a check that gives an error, the first one that does.
  pub start_pinger-exited_iff :
      (events : List Event) (code : ℕ) (w v : net.World)
      → (start_pinger net config events w ≡ ret (exited code, v)) ↔ (
          (config.mode ≡ "server")
          × (code ≡ config.exit_code)
          × (code ≢ 0)
          × FailsAtTick events w v)
  unfolding start_pinger
  start_pinger-exited_iff events code w v = (
    λ h. elim (==_cases config.exit_code 0) [
      | inl zero_code ↦ absurd (run_loop-ne-exited events false code w v zero_code h)
      | inr nonzero ↦ run_loop-exited events code w v (ground arith) h
    ],
    λ (server, same, nonzero, f). rw same (FailsAtTick-run_loop server (ground arith) f),
  )
