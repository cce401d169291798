-- ===== src/Sandbox/Outcomes.antt =====
-- What a caller of the sandbox (src/sandbox.py) can rely on.
use claudecodenodus.Base.{
  ℕ, Text, lit, lit-ne, ◌==◌, ==-refl, ◌≡◌, ◌≢◌, refl, ◌↔◌, ◌⊎◌, inl, inr, Bool, true, false, ◌&&◌,
  ◌||◌, Option, none, some, List, [], ◌∷◌, ◌++◌, arith, zero, suc, drop,
}
use claudecodenodus.Base.Split.{is_infix}
use claudecodenodus.Base.Int.{ℤ, pos, negsuc, int_eq_iff, ◌+ℤ◌}
use claudecodenodus.Exec.{Fault, Result, ok, err, Result-cases}
use claudecodenodus.Sandbox.{
  DockerCodeRunner, Process, Outcome, finished, file_not_found, timeout_expired, raised, RunResult,
  or_empty, is_timeout_code, is_daemon_error, build_cmd, conclude, run, code_timeout,
}

-- One text directly before the other.
unfoldable pub follows : Text → Text → List Text → Bool
follows a b [] = false
follows a b (x ∷ []) = false
follows a b (x ∷ y ∷ ts) = (x == a && y == b) || follows a b (y ∷ ts)

follows-here : (a b : Text) (ts : List Text) → follows a b (a ∷ b ∷ ts) ≡ true
unfolding follows
follows-here a b ts = rw (==-refl a, ==-refl b)

follows-drop :
    (a b : Text) (n : ℕ) (ts : List Text) → follows a b (drop n ts) ≡ true → follows a b ts ≡ true
unfolding follows
follows-drop a b zero ts h = h
follows-drop a b (suc n) [] h = h
follows-drop a b (suc zero) (x ∷ []) h = h
follows-drop a b (suc (suc n)) (x ∷ []) h = h
follows-drop a b (suc n) (x ∷ y ∷ ts) h = ground (arith, follows-drop a b n (y ∷ ts) h)

apart_124 : pos 124 ≢ pos 0
apart_124 e = ground arith

apart_137 : pos 137 ≢ pos 0
apart_137 e = ground arith

-- The two markers that a result can carry differ.
markers : lit "timeout" ≢ lit "docker_unavailable"
markers = lit-ne "timeout" "docker_unavailable" (unfold lit ◌==◌ in refl)

module _ (show : ℤ → Text) (strip : Text → Text) (r : DockerCodeRunner) where
  -- A subprocess that ends gives a result with its exit code. The result is marked as a timeout
  -- exactly for the exit codes 124 and 137, as an unavailable Docker exactly for another code than
  -- these and 0 with an error output in which one of the three messages about the daemon stands, and
  -- otherwise has no marker and both outputs unchanged. With any marker the code is not 0.
  pub conclude-finished :
      (seconds : ℤ) (p : Process) (result : RunResult)
      → conclude show strip r seconds (finished p) ≡ ok result
      → (result.exit_code ≡ p.returncode)
        × ((result.error ≡ some (lit "timeout"))
            ↔ ((p.returncode ≡ pos 124) ⊎ (p.returncode ≡ pos 137)))
        × ((result.error ≡ some (lit "docker_unavailable")) ↔ (
            (p.returncode ≢ pos 124)
            × (p.returncode ≢ pos 137)
            × (p.returncode ≢ pos 0)
            × ((is_infix (lit "Cannot connect to the Docker daemon") (or_empty p.stderr) ≡ true)
                ⊎ ((is_infix (lit "error during connect") (or_empty p.stderr) ≡ true)
                    ⊎ (is_infix (lit "is not running") (or_empty p.stderr) ≡ true)))))
        × ((result.error ≢ none) → p.returncode ≢ pos 0)
        × ((result.error ≡ some (lit "timeout"))
            ⊎ ((result.error ≡ some (lit "docker_unavailable"))
                ⊎ ((result.error ≡ none)
                    × (result.stdout ≡ or_empty p.stdout)
                    × (result.stderr ≡ or_empty p.stderr))))
  unfolding conclude is_timeout_code is_daemon_error
  conclude-finished seconds p result h = ground (
    arith,
    markers,
    int_eq_iff p.returncode (pos 0),
    int_eq_iff p.returncode (pos 124),
    int_eq_iff p.returncode (pos 137),
    apart_124,
    apart_137,
  )

  -- How a run deals with each outcome of the subprocess call.
  abbrev pub Soft : Outcome → Result Fault RunResult → Type 0
  Soft (raised f) result = result ≡ err f
  Soft (finished p) (err f) = ⊥
  Soft (finished p) (ok result) = result.exit_code ≡ p.returncode
  Soft outcome (err f) = ⊥
  Soft outcome (ok result) =
      (result.exit_code ≡ negsuc 0) × (result.stdout ≡ []) × (result.error ≢ none)

  conclude-Soft :
      (seconds : ℤ) (outcome : Outcome) → Soft outcome (conclude show strip r seconds outcome)
  unfolding conclude
  conclude-Soft seconds (raised f) = refl
  conclude-Soft seconds file_not_found = (refl, refl, λ e. cc)
  conclude-Soft seconds timeout_expired = (refl, refl, λ e. cc)
  conclude-Soft seconds (finished p) = ground arith

  -- A run raises only what the subprocess call raised beside a missing executable and an expired
  -- deadline; these two give a marked result with exit code -1 and no output. The call gets the
  -- locked-down command, the code as its input, and the code's own timeout plus the overhead.
  run-Soft :
      (runner : List Text → Text → ℤ → Outcome) (code : Text) (timeout_seconds : Option ℤ)
      → let seconds = code_timeout show strip r timeout_seconds in
        Soft
          (runner (build_cmd show strip r seconds) code (seconds +ℤ r.startup_overhead))
          (run show strip r runner code timeout_seconds)
  unfolding run
  run-Soft runner code timeout_seconds =
      let seconds : ℤ = code_timeout show strip r timeout_seconds in
      conclude-Soft seconds
        (runner (build_cmd show strip r seconds) code (seconds +ℤ r.startup_overhead))

  -- The options before the image lock the container down, and the command after it runs Python on
  -- its standard input, under the code's own timeout.
  abbrev pub IsLockedDown : ℤ → List Text → Type 0
  IsLockedDown seconds command =
      (options : List Text) × (command
        ≡ options
          ++ (r.image
              ∷ lit "timeout"
              ∷ lit "-k"
              ∷ lit "5"
              ∷ show seconds
              ∷ lit "python"
              ∷ lit "-I"
              ∷ lit "-"
              ∷ []))
      × (follows (lit "--cap-drop") (lit "ALL") options ≡ true)
      × (follows (lit "--network") (lit "none") options ≡ true)
      × (follows (lit "--security-opt") (lit "no-new-privileges") options ≡ true)
      × (follows (lit "--user") (lit "65534:65534") options ≡ true)
      × (follows (lit "--memory") r.memory options ≡ true)
      × (follows (lit "--memory-swap") r.memory options ≡ true)
      × (follows (lit "--read-only") (lit "--tmpfs") options ≡ true)

  pub build_cmd-IsLockedDown : (seconds : ℤ) → IsLockedDown seconds (build_cmd show strip r seconds)
  unfolding build_cmd
  build_cmd-IsLockedDown seconds = (
    options,
    refl,
    (follows-drop _ _ 4 options (follows-here _ _ _)),
    follows-drop _ _ 6 options (follows-here _ _ _),
    follows-drop _ _ 8 options (follows-here _ _ _),
    follows-drop _ _ 21 options (follows-here _ _ _),
    follows-drop _ _ 13 options (follows-here _ _ _),
    follows-drop _ _ 15 options (follows-here _ _ _),
    follows-drop _ _ 10 options (follows-here _ _ _),
  )
    where
      options : List Text
      options =
          r.docker
          ∷ lit "run"
          ∷ lit "--rm"
          ∷ lit "-i"
          ∷ lit "--cap-drop"
          ∷ lit "ALL"
          ∷ lit "--network"
          ∷ lit "none"
          ∷ lit "--security-opt"
          ∷ lit "no-new-privileges"
          ∷ lit "--read-only"
          ∷ lit "--tmpfs"
          ∷ lit "/tmp:rw,size=64m,noexec"
          ∷ lit "--memory"
          ∷ r.memory
          ∷ lit "--memory-swap"
          ∷ r.memory
          ∷ lit "--pids-limit"
          ∷ show r.pids_limit
          ∷ lit "--cpus"
          ∷ r.cpus
          ∷ lit "--user"
          ∷ lit "65534:65534"
          ∷ []

module _ (show : ℤ → Text) (strip : Text → Text) (d : DockerCodeRunner) (seconds : ℤ) where
  -- A run concludes with a result unless the subprocess call raised.
  pub Outcome-cases :
      (o : Outcome)
      → ((f : Fault) × (o ≡ raised f) × (conclude show strip d seconds o ≡ err f))
        ⊎ ((r : RunResult) × (conclude show strip d seconds o ≡ ok r) × Soft show strip d o (ok r))
  Outcome-cases o = elim (Result-cases (conclude show strip d seconds o)) [
    | inl (r, e) ↦ inr (r, e, rw e at (conclude-Soft show strip d seconds o))
    | inr (f, e) ↦ soft_raised o f e (rw e at (conclude-Soft show strip d seconds o))
  ]
    where
      soft_raised :
          (o : Outcome) (f : Fault)
          → conclude show strip d seconds o ≡ err f
          → Soft show strip d o (err f)
          → ((f : Fault) × (o ≡ raised f) × (conclude show strip d seconds o ≡ err f))
            ⊎ ((r : RunResult) × (conclude show strip d seconds o ≡ ok r)
                × Soft show strip d o (ok r))
      soft_raised (raised g) f e h = inl (f, cc, e)
      soft_raised (finished p) f e h = absurd h
      soft_raised file_not_found f e h = absurd h
      soft_raised timeout_expired f e h = absurd h
