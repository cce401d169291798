-- ===== src/Sandbox.antt =====
-- `DockerCodeRunner` of src/sandbox.py: the command line that is built, and how the outcome of the
-- subprocess becomes a result. The subprocess call, `str` of an integer and `str.strip` are
-- parameters.
pub mod Outcomes
use claudecodenodus.Base.{
  ℕ, Text, lit, ◌==◌, Bool, true, false, not, ◌&&◌, ◌||◌, Option, none, some, List, [], ◌∷◌, ◌++◌,
  if◌then◌else◌,
}
use claudecodenodus.Base.Split.{is_infix}
use claudecodenodus.Base.Int.{ℤ, pos, negsuc, is_zero, int_eq, ◌+ℤ◌}
use claudecodenodus.Exec.{Fault, Result, ok, err}

pub record DockerCodeRunner : Type 0 where
  pub image : Text
  pub default_timeout : ℤ
  pub memory : Text
  pub pids_limit : ℤ
  pub cpus : Text
  pub startup_overhead : ℤ
  pub docker : Text

-- What the subprocess leaves; a stream that was not captured is missing.
pub record Process : Type 0 where
  pub stdout : Option Text
  pub stderr : Option Text
  pub returncode : ℤ

-- The subprocess ends, or raises `FileNotFoundError`, `TimeoutExpired` or another exception.
pub data Outcome : Type 0 where
  finished : Process → Outcome
  file_not_found : Outcome
  timeout_expired : Outcome
  raised : Fault → Outcome

pub record RunResult : Type 0 where
  pub stdout : Text
  pub stderr : Text
  pub exit_code : ℤ
  pub error : Option Text

-- `_TIMEOUT_EXIT_CODES`
unfoldable pub is_timeout_code : ℤ → Bool
unfolding int_eq
is_timeout_code code = int_eq code (pos 124) || int_eq code (pos 137)

unfoldable pub is_daemon_error : Text → Bool
unfolding is_infix
is_daemon_error stderr =
    is_infix (lit "Cannot connect to the Docker daemon") stderr
    || (is_infix (lit "error during connect") stderr || is_infix (lit "is not running") stderr)

abbrev pub or_empty : Option Text → Text
or_empty none = []
or_empty (some t) = t

module _ (show : ℤ → Text) (strip : Text → Text) (r : DockerCodeRunner) where
  -- `int(timeout_seconds) if timeout_seconds else self._default_timeout`
  unfoldable pub code_timeout : Option ℤ → ℤ
  code_timeout none = r.default_timeout
  code_timeout (some t) = if is_zero t then r.default_timeout else t

  unfoldable pub build_cmd : ℤ → List Text
  build_cmd seconds =
      r.docker
      ∷ lit "run"
      ∷ lit "--rm"
      ∷ lit "-i"
      ∷ lit "--cap-drop"
      ∷ lit "ALL"
      ∷ lit "--network"
      ∷ lit "none"
      ∷ lit "--security-opt"
      ∷ lit "no-new-privileges"
      ∷ lit "--read-only"
      ∷ lit "--tmpfs"
      ∷ lit "/tmp:rw,size=64m,noexec"
      ∷ lit "--memory"
      ∷ r.memory
      ∷ lit "--memory-swap"
      ∷ r.memory
      ∷ lit "--pids-limit"
      ∷ show r.pids_limit
      ∷ lit "--cpus"
      ∷ r.cpus
      ∷ lit "--user"
      ∷ lit "65534:65534"
      ∷ r.image
      ∷ lit "timeout"
      ∷ lit "-k"
      ∷ lit "5"
      ∷ show seconds
      ∷ lit "python"
      ∷ lit "-I"
      ∷ lit "-"
      ∷ []

  -- The part of `run` after the subprocess, for a code timeout.
  unfoldable pub conclude : ℤ → Outcome → Result Fault RunResult
  conclude seconds (raised f) = err f
  conclude seconds file_not_found = ok (record {
    stdout = [];
    stderr = lit "docker executable not found (" ++ (r.docker ++ lit ")");
    exit_code = negsuc 0;
    error = some (lit "docker_unavailable");
  })
  conclude seconds timeout_expired = ok (record {
    stdout = [];
    stderr =
        lit "container did not return within " ++ (show (seconds +ℤ r.startup_overhead) ++ lit "s");
    exit_code = negsuc 0;
    error = some (lit "timeout");
  })
  conclude seconds (finished p) =
      let stderr : Text = or_empty p.stderr in
      if is_timeout_code p.returncode
      then ok (record {
        stdout = or_empty p.stdout;
        stderr =
            if stderr == []
            then lit "execution exceeded " ++ (show seconds ++ lit "s timeout")
            else stderr;
        exit_code = p.returncode;
        error = some (lit "timeout");
      })
      else if not (int_eq p.returncode (pos 0)) && is_daemon_error stderr
      then ok (record {
        stdout = [];
        stderr = strip stderr;
        exit_code = p.returncode;
        error = some (lit "docker_unavailable");
      })
      else ok (record {
        stdout = or_empty p.stdout;
        stderr = stderr;
        exit_code = p.returncode;
        error = none;
      })

  -- `run`: the runner takes the command, the code as its input, and the deadline.
  unfoldable pub run : (List Text → Text → ℤ → Outcome) → Text → Option ℤ → Result Fault RunResult
  unfolding conclude code_timeout build_cmd is_timeout_code is_daemon_error int_eq
  run runner code timeout_seconds =
      let seconds : ℤ = code_timeout timeout_seconds in
      conclude seconds (runner (build_cmd seconds) code (seconds +ℤ r.startup_overhead))
