-- ===== src/Chain/Scopes.antt =====
-- Tables that are kept once for each scope.
use twig_system_contracts.Prelude.{ℕ, ◌==◌, if◌then◌else◌}

-- The tables with the one of a scope replaced.
abbrev pub at_scope : {T : Type 0} → ℕ → T → (ℕ → T) → ℕ → T
at_scope scope t tables other = if other == scope then t else tables other
