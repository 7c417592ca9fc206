-- ===== src/System/Startup/Tests.antt =====
-- A chain that is set up and makes two blocks.
use twig_system_contracts.Prelude.{ℕ, false, none, some, List, [], ◌∷◌, ◌*◌, ◌≡◌, refl, true, arith}
use twig_system_contracts.Chain.{store, find, empty_table, Env, NameLib, ok, ◌>>=◌}
use twig_system_contracts.Chain.Listed.{listed}
use twig_system_contracts.System.Blocks.{BlockInfo, block_height_from_id}
use twig_system_contracts.System.Window.{IsRecent, info_of}
use twig_system_contracts.System.Calls.{RngCall}
use twig_system_contracts.System.Producers.{
  Registry, Producer, FinKey, Finalizer, FinalizerAuthInfo, IsUnvoted,
}
use twig_system_contracts.System.Onblock.{Library, Core, BlockHeader}
use twig_system_contracts.System.Config.{Parameters, init}
use twig_system_contracts.System.Startup.{Consecutive, IsReady, run_blocks, init-run_blocks}

abbrev lib : Library
lib = record {
  scale = record {
    D = ℕ;
    of_uint = λ n. n;
    times = λ a b. a * b;
    over = λ a b. a;
    to_uint32 = λ a. 0;
  };
  hashes = record { sha256 = λ l. l; sha512 = λ l. l };
  host = record {
    is_valid = λ a. true;
    no_key = [];
    decode_public_key = λ text. ok [];
    decode_signature = λ text. ok [];
    pop_verify = λ key pop. true;
    sha256 = λ bytes. 0;
    set_finalizers = λ policy. ok tt;
    set_proposed_producers = λ schedule. some 1;
    unset = [];
  };
  time_of = λ slot. slot;
}

instance abbrev plain : NameLib
plain = record { suffix = λ n. n; text = λ n. "twig" }

abbrev env : Env
env = record { self = 5; has_auth = λ n. true; is_account = λ n. true; now = 60 }

-- Blocks 260 and 261, by producers 7 and 8.
abbrev header : BlockHeader
header = record { timestamp = 900; producer = 7; previous = 0 ∷ 0 ∷ 1 ∷ 3 ∷ [] }

abbrev next_header : BlockHeader
next_header = record { timestamp = 901; producer = 8; previous = 0 ∷ 0 ∷ 1 ∷ 4 ∷ [] }

abbrev registry : Registry
registry = record {
  global = none;
  producers = empty_table Producer;
  finkeys = empty_table FinKey;
  finalizers = empty_table Finalizer;
  finkeyidgen = empty_table ℕ;
  lastpropfins = empty_table (List FinalizerAuthInfo);
  cached = none;
  policies = [];
}

abbrev core : Core
core = record {
  registry = registry;
  lucky = none;
  blockinfo = store 259 (info_of 259 7) (empty_table BlockInfo);
  rngcalls =
      store 2 (record { index = 2; contract = 6; action = 9; active = 1 }) (empty_table RngCall);
}

registry-IsUnvoted : IsUnvoted registry.producers
unfolding find empty_table
registry-IsUnvoted k row h = absurd (ground arith)

abbrev headers : List BlockHeader
headers = header ∷ next_header ∷ []

headers-Consecutive : Consecutive 259 headers
unfolding block_height_from_id
headers-Consecutive = (refl, (refl, tt))

core-IsRecent_259 : IsRecent 259 core.blockinfo
unfolding find store empty_table
core-IsRecent_259 = record {
  keyed = λ k row h. ground arith;
  past = λ k row h. ground arith;
  fresh = λ k row h. ground arith;
}

-- The parameters are their largest depth alone.
abbrev params : Parameters
params = record { P = ℕ; max_authority_depth = λ p. p; current = 6; set = λ p. ok tt }

init-run_blocks_example :
    (s' : Core) × ((init params env false none core >>= λ r. run_blocks lib env headers r.1)
      ≡ ok s')
    × IsReady lib 261 0 s'
init-run_blocks_example =
    init-run_blocks lib params env none headers 259 core refl core-IsRecent_259 registry-IsUnvoted
      headers-Consecutive (omega arith)
