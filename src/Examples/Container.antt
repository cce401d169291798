-- ===== src/Examples/Container.antt =====
-- A runner with a fixed configuration (src/sandbox.py), whose integers print as one letter each
-- and whose `strip` drops leading spaces.
use claudecodenodus.Base.{
  Text, lit, text_eq, ◌==◌, ◌≡◌, ◌≢◌, refl, ◌↔◌, ◌⊎◌, true, none, some, [], ◌∷◌, eqb, if◌then◌else◌,
}
use claudecodenodus.Base.Int.{ℤ, pos, negsuc, int_eq}
use claudecodenodus.Base.Split.{is_infix}
use claudecodenodus.Exec.{ok}
use claudecodenodus.Sandbox.{
  DockerCodeRunner, Process, finished, RunResult, or_empty, is_timeout_code, is_daemon_error,
  conclude, run, code_timeout,
}
use claudecodenodus.Sandbox.Outcomes
use claudecodenodus.Sandbox.Outcomes.{follows, Soft}

abbrev show : ℤ → Text
show (pos n) = n ∷ []
show (negsuc n) = b'-' ∷ n ∷ []

abbrev strip : Text → Text
strip [] = []
strip (c ∷ t) = if eqb c b' ' then t else c ∷ t

abbrev pub runner : DockerCodeRunner
runner = record {
  image = lit "python:3.11-slim";
  default_timeout = pos 30;
  memory = lit "256m";
  pids_limit = pos 128;
  cpus = lit "1.0";
  startup_overhead = pos 90;
  docker = lit "docker";
}

abbrev no_daemon : Text
no_daemon = lit " error during connect"

abbrev failed : Process
failed = record { stdout = none; stderr = some no_daemon; returncode = pos 1 }

abbrev failed_result : RunResult
failed_result = record {
  stdout = [];
  stderr = lit "error during connect";
  exit_code = pos 1;
  error = some (lit "docker_unavailable");
}

sandbox_code : Unit {0}
unfolding conclude is_timeout_code is_daemon_error is_infix int_eq lit ◌==◌ run code_timeout
sandbox_code = tt

failed_runs : conclude show strip runner (pos 30) (finished failed) ≡ ok failed_result
unfolding sandbox_code
failed_runs = refl

conclude-finished_example :
    (failed_result.exit_code ≡ failed.returncode)
    × ((failed_result.error ≡ some (lit "timeout"))
        ↔ ((failed.returncode ≡ pos 124) ⊎ (failed.returncode ≡ pos 137)))
    × ((failed_result.error ≡ some (lit "docker_unavailable")) ↔ (
        (failed.returncode ≢ pos 124)
        × (failed.returncode ≢ pos 137)
        × (failed.returncode ≢ pos 0)
        × ((is_infix (lit "Cannot connect to the Docker daemon") (or_empty failed.stderr) ≡ true)
            ⊎ ((is_infix (lit "error during connect") (or_empty failed.stderr) ≡ true)
                ⊎ (is_infix (lit "is not running") (or_empty failed.stderr) ≡ true)))))
    × ((failed_result.error ≢ none) → failed.returncode ≢ pos 0)
    × ((failed_result.error ≡ some (lit "timeout"))
        ⊎ ((failed_result.error ≡ some (lit "docker_unavailable"))
            ⊎ ((failed_result.error ≡ none)
                × (failed_result.stdout ≡ or_empty failed.stdout)
                × (failed_result.stderr ≡ or_empty failed.stderr))))
conclude-finished_example =
    Outcomes.conclude-finished show strip runner (pos 30) failed failed_result failed_runs
