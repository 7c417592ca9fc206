-- ===== src/Wrap/Tests.antt =====
-- A transaction that is forwarded.
use twig_system_contracts.Prelude.{[], ◌∷◌, true}
use twig_system_contracts.Chain.{Env, ok}
use twig_system_contracts.Wrap.{Stream}

abbrev env : Env
env = record { self = 5; has_auth = λ n. true; is_account = λ n. true; now = 60 }

abbrev stream : Stream
stream = record {
  executer = ok 7;
  header = ok tt;
  context_free_actions = ok [];
  actions = ok (1 ∷ 2 ∷ []);
}
