-- ===== src/System/Producers/Room.antt =====
-- How many more keys fit before an id or a count wraps round
-- (contracts/eosio.system/src/actions/3.producers.cpp).
use twig_system_contracts.Prelude.{ℕ, suc, Option, none, some, ◌+◌, ◌^◌, ◌≤◌, ◌<◌, arith, ◌≡◌}
use twig_system_contracts.Chain.{MultiIndex, Table, find, store, find-store}
use twig_system_contracts.System.Producers.State.{FinKey, Finalizer}
use twig_system_contracts.System.Producers.Keys.{one_more, one_less}
use twig_system_contracts.System.Producers.Ring.{count_of}
use twig_system_contracts.System.Producers.Removing.{find-one_less}

abbrev pub last_of : Option ℕ → ℕ
last_of none = 0
last_of (some last) = last

module _ ⦃mi : MultiIndex⦄ where
  -- The ids and the counts can rise `n` times.
  pub record HasRoom (n : ℕ) (finkeyidgen : Table ℕ) (finalizers : Table Finalizer) : Type 0 where
    pub ids : last_of (find 0 finkeyidgen) + n < 2 ^ 64
    pub keys : (name : ℕ) → count_of (find name finalizers) + n < 2 ^ 32

  pub some_room :
      {n : ℕ} (finkeyidgen : Table ℕ) (finalizers : Table Finalizer)
      → HasRoom (suc n) finkeyidgen finalizers
      → HasRoom 1 finkeyidgen finalizers
  some_room finkeyidgen finalizers room =
      let ids = room.ids in
      record { ids = omega arith; keys = λ name. let k = room.keys name in omega arith }

  pub shifted :
      {n : ℕ} (finkeyidgen : Table ℕ) (finalizers : Table Finalizer)
      → HasRoom (suc n) finkeyidgen finalizers
      → HasRoom (n + 1) finkeyidgen finalizers
  shifted finkeyidgen finalizers room =
      let ids = room.ids in
      record { ids = omega arith; keys = λ name. let k = room.keys name in omega arith }

  one_more-small :
      (n : ℕ) (key : FinKey) (old : Option Finalizer)
      → count_of old + (n + 1) < 2 ^ 32
      → (one_more key old).finalizer_key_count + n < 2 ^ 32
  one_more-small n key none room = omega arith
  one_more-small n key (some f) room = omega arith

  pub added-HasRoom :
      (n id : ℕ) (key : FinKey) (finkeyidgen : Table ℕ) (finalizers : Table Finalizer)
      → id ≤ last_of (find 0 finkeyidgen) + 1
      → HasRoom (n + 1) finkeyidgen finalizers
      → HasRoom n
          (store 0 id finkeyidgen)
          (store key.finalizer_name (one_more key (find key.finalizer_name finalizers)) finalizers)
  added-HasRoom n id key finkeyidgen finalizers next room =
      let more = one_more key (find key.finalizer_name finalizers) in
      let ids = room.ids in
      let small =
        one_more-small n key (find key.finalizer_name finalizers) (room.keys key.finalizer_name) in
      record {
        ids = ground (arith, find-store 0 0 id finkeyidgen);
        keys = λ name.
            ground
              (arith, find-store name key.finalizer_name more finalizers, room.keys name, small);
      }

  pub activated-HasRoom :
      (n : ℕ) (key : FinKey) (f : Finalizer) (finkeyidgen : Table ℕ) (finalizers : Table Finalizer)
      → find key.finalizer_name finalizers ≡ some f
      → HasRoom (n + 1) finkeyidgen finalizers
      → HasRoom n finkeyidgen (
          store key.finalizer_name
            (record f { active_key_id = key.id; active_key_binary = key.finalizer_key_binary })
            finalizers)
  activated-HasRoom n key f finkeyidgen finalizers there room =
      let new : Finalizer = record f {
        active_key_id = key.id;
        active_key_binary = key.finalizer_key_binary;
      } in
      let ids = room.ids in
      record {
        ids = omega arith;
        keys = λ name. ground (
          arith,
          find-store name key.finalizer_name new finalizers,
          room.keys name,
          room.keys key.finalizer_name,
        );
      }

  pub removed-HasRoom :
      (n name : ℕ) (f : Finalizer) (finkeyidgen : Table ℕ) (finalizers : Table Finalizer)
      → find name finalizers ≡ some f
      → HasRoom (n + 1) finkeyidgen finalizers
      → HasRoom n finkeyidgen (one_less name f finalizers)
  removed-HasRoom n name f finkeyidgen finalizers there room =
      let ids = room.ids in
      record {
        ids = omega arith;
        keys = λ other.
            ground (arith, find-one_less other name f finalizers, room.keys other, room.keys name);
      }
