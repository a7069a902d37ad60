-- ===== src/Crossplane/Answer.antt =====
-- How the controllers turn the answer of a deletion into their own.
use provider_alibaba.Base.{String, Bool, Option, some, if◌then◌else◌}
use provider_alibaba.Go.{Outcome, ok, err, panic, Err, wrap}

-- An error that passes the test counts as success, and any other is wrapped.
abbrev pub forgiving : (Option Err → Bool) → String → Outcome (Unit {0}) → Outcome (Unit {0})
forgiving is msg (ok _) = ok tt
forgiving is msg (err e) = if is (some e) then ok tt else err (wrap msg e)
forgiving is msg panic = panic
