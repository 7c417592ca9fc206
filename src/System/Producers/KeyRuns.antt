-- ===== src/System/Producers/KeyRuns.antt =====
-- Runs of the actions on finalizer keys
-- (contracts/eosio.system/src/actions/3.producers.cpp: regfinkey, actfinkey, delfinkey).
use twig_system_contracts.Prelude.{List, [], ◌∷◌, length, ◌≡◌, subst}
use twig_system_contracts.Chain.{MultiIndex, Env, >>=-eq-ok, ok-injective, Result, ok, ◌>>=◌}
use twig_system_contracts.System.Producers.State.{Host, Registry, anew}
use twig_system_contracts.System.Producers.KeyCalls.{KeyAct, run_key, IsRing}
use twig_system_contracts.System.Producers.KeyRing.{
  Keeps, regfinkey-Keeps, actfinkey-Keeps, delfinkey-Keeps,
}
use twig_system_contracts.System.Producers.Room.{HasRoom, some_room, shifted}

module _ ⦃mi : MultiIndex⦄ (host : Host) where
  run_key-Keeps :
      (e : Env) (act : KeyAct) (s s' : Registry)
      → HasRoom 1 s.finkeyidgen s.finalizers
      → IsRing host s
      → run_key host e act s ≡ ok s'
      → Keeps host s s'
  run_key-Keeps e (KeyAct.register_key name key proof) s s' room ring h =
      regfinkey-Keeps host e name key proof (anew s) s' room ring h
  run_key-Keeps e (KeyAct.activate_key name key) s s' room ring h =
      actfinkey-Keeps host e name key (anew s) s' ring h
  run_key-Keeps e (KeyAct.delete_key name key) s s' room ring h =
      delfinkey-Keeps host e name key (anew s) s' ring h

  -- One action after the other, each in its own environment.
  abbrev pub run_keys : List (Env × KeyAct) → Registry → Result Registry
  run_keys [] s = ok s
  run_keys ((e, act) ∷ acts) s = run_key host e act s >>= run_keys acts

  -- Registers of keys and finalizers that agree still agree after any number of keys have been
  -- registered, activated and deleted, by whomever, if so many more keys fit before an id or a
  -- count wraps round: ids are unique, no two keys have one hash, and each finalizer has at least
  -- one key, exactly as many as are counted for it, with one of its own active.
  pub run_keys-IsRing :
      (acts : List (Env × KeyAct)) (s s' : Registry)
      → HasRoom (length acts) s.finkeyidgen s.finalizers
      → IsRing host s
      → run_keys acts s ≡ ok s'
      → IsRing host s'
  run_keys-IsRing [] s s' room ring h = subst (IsRing host) (ok-injective h) ring
  run_keys-IsRing ((e, act) ∷ acts) s s' room ring h =
      let (t, here, later) = >>=-eq-ok (run_key host e act s) (run_keys acts) h in
      let (kept, less) =
        run_key-Keeps e act s t (some_room s.finkeyidgen s.finalizers room) ring here in
      run_keys-IsRing acts t s' (less (length acts) (shifted s.finkeyidgen s.finalizers room)) kept
        later
