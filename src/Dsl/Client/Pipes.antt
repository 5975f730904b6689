-- ===== src/Dsl/Client/Pipes.antt =====
-- dsl/client.go: a command of a service that runs to its end, its output being read.
use pact_go.Common.{ℕ, Text, bytes, Error, Result, ok, err, Option, none, some, ◌++◌}
use pact_go.Common.Steps.{unless_failed}
use pact_go.Client.ServiceManager.{Cmd}
use pact_go.Dsl.Client.{Host}

-- The error of `cmd.Start()`.
abbrev pub started : {W : Type 0} → W × Result ℕ → W × Option Error
started (w, ok pid) = (w, none)
started (w, err e) = (w, some e)

abbrev pub separated : Text → Error → Text → Text → Error
separated head e std_err std_out =
    head ++ e ++ bytes "\n\nSTDERR:\n" ++ std_err ++ bytes "\n\nSTDOUT:\n" ++ std_out

module _ {W : Type 0} (host : Host W) where
  -- The two pipes, and the start of the process.
  unfoldable pub launch : Cmd → W → W × Option Error
  launch cmd w =
      unless_failed (w, host.stdout_pipe cmd)
        (λ w. unless_failed (w, host.stderr_pipe cmd) (λ w. started (host.spawn cmd w)))

  -- What a command leaves whose output is read: its two texts and the error of `cmd.Wait()`.
  unfoldable pub read_pipes : Cmd → W → W × Result (Text × Text × Option Error)
  read_pipes cmd w =
      let (w₁, out) = host.read_stdout cmd w in
      elim out [
        | err e ↦ (w₁, err e)
        | ok std_out ↦
            let (w₂, errors) = host.read_stderr cmd w₁ in
            elim errors [
              | err e ↦ (w₂, err e)
              | ok std_err ↦ let (w₃, e) = host.wait cmd w₂ in (w₃, ok (std_out, std_err, e))
            ]
      ]
