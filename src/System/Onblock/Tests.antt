-- ===== src/System/Onblock/Tests.antt =====
-- The theorems on the action of a block at a concrete block.
use twig_system_contracts.Prelude.{
  ℕ, suc, none, some, List, [], ◌∷◌, ◌*◌, ◌^◌, ◌<◌, ◌≡◌, refl, true, arith,
}
use twig_system_contracts.Chain.{store, find, empty_table, Env, NameLib, Send, ok}
use twig_system_contracts.Chain.Listed.{listed}
use twig_system_contracts.System.State.{LuckyNumber, lucky_number_odds}
use twig_system_contracts.System.Blocks.{BlockInfo, block_height_from_id}
use twig_system_contracts.System.Window.{IsRecent, info_of}
use twig_system_contracts.System.Calls.{RngCall}
use twig_system_contracts.System.Producers.{
  Registry, Global, Producer, FinKey, Finalizer, FinalizerAuthInfo, IsUnvoted,
}
use twig_system_contracts.System.Onblock.Action.{Library, Core, BlockHeader, onblock}
use twig_system_contracts.System.Onblock.Sound.{Blocks, onblock-Blocks, onblock-global}

abbrev lib : Library
lib = record {
  scale = record {
    D = ℕ;
    of_uint = λ n. n;
    times = λ a b. a * b;
    over = λ a b. a;
    to_uint32 = λ a. 0;
  };
  hashes = record { sha256 = λ l. l; sha512 = λ l. l };
  host = record {
    is_valid = λ a. true;
    no_key = [];
    decode_public_key = λ text. ok [];
    decode_signature = λ text. ok [];
    pop_verify = λ key pop. true;
    sha256 = λ bytes. 0;
    set_finalizers = λ policy. ok tt;
    set_proposed_producers = λ schedule. some 1;
    unset = [];
  };
  time_of = λ slot. slot;
}

instance abbrev plain : NameLib
plain = record { suffix = λ n. n; text = λ n. "twig" }

abbrev env : Env
env = record { self = 5; has_auth = λ n. true; is_account = λ n. true; now = 60 }

-- Block 260 by producer 7, after block 259.
abbrev header : BlockHeader
header = record { timestamp = 900; producer = 7; previous = 0 ∷ 0 ∷ 1 ∷ 3 ∷ [] }

abbrev global : Global
global = record { last_producer_schedule_update = 100; last_producer_schedule_size = 0 }

abbrev lucky : LuckyNumber
lucky = record {
  seed = [];
  odds = lucky_number_odds;
  epoch = 3;
  chunks_remaining = 12;
  blocks_since = 0;
  total_blocks = 0;
  producer = 8;
}

abbrev registry : Registry
registry = record {
  global = some global;
  producers = empty_table Producer;
  finkeys = empty_table FinKey;
  finalizers = empty_table Finalizer;
  finkeyidgen = empty_table ℕ;
  lastpropfins = empty_table (List FinalizerAuthInfo);
  cached = none;
  policies = [];
}

abbrev core : Core
core = record {
  registry = registry;
  lucky = some lucky;
  blockinfo = store 259 (info_of 259 7) (empty_table BlockInfo);
  rngcalls =
      store 2 (record { index = 2; contract = 6; action = 9; active = 1 }) (empty_table RngCall);
}

core-IsRecent : IsRecent (block_height_from_id header.previous) core.blockinfo
unfolding find store empty_table block_height_from_id
core-IsRecent = record {
  keyed = λ k row h. ground arith;
  past = λ k row h. ground arith;
  fresh = λ k row h. ground arith;
}

registry-IsUnvoted : IsUnvoted registry.producers
unfolding find empty_table
registry-IsUnvoted k row h = absurd (ground arith)

small : suc (block_height_from_id header.previous) < 2 ^ 32
unfolding block_height_from_id
small = omega arith

onblock-Blocks_example :
    (s' : Core) × (sends : List Send) × (onblock lib env header core ≡ ok (s', sends))
    × Blocks lib env header lucky core s' sends
onblock-Blocks_example =
    onblock-Blocks lib env header global lucky core refl refl refl
      (record { chunks = omega arith; begun = omega arith }) (omega arith) small core-IsRecent
      registry-IsUnvoted

-- The same block, named for the theorem that follows.
block_run :
    (s' : Core) × (sends : List Send) × (onblock lib env header core ≡ ok (s', sends))
    × Blocks lib env header lucky core s' sends
block_run =
    onblock-Blocks lib env header global lucky core refl refl refl
      (record { chunks = omega arith; begun = omega arith }) (omega arith) small core-IsRecent
      registry-IsUnvoted

onblock-global_example : block_run.0.registry.global ≡ some global
onblock-global_example = onblock-global lib env header core block_run.0 block_run.1 block_run.2
