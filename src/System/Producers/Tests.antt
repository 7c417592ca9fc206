-- ===== src/System/Producers/Tests.antt =====
-- Each theorem on producers and finalizers at a concrete input.
use Prim.Native.String.{len}
use twig_system_contracts.Prelude.{
  ℕ, true, none, some, List, [], ◌∷◌, ◌*◌, ◌^◌, ◌≡◌, ◌≢◌, refl, arith, sort_by,
}
use twig_system_contracts.Chain.{
  find, rows, store, erase, empty_table, Env, ok, NameLib, sum, sum_in,
}
use twig_system_contracts.Chain.Listed.{listed}
use twig_system_contracts.System.Producers.State.{
  SigningAuthority, Producer, FinKey, Finalizer, FinalizerAuthInfo, Global, Host, Registry,
}
use twig_system_contracts.System.Producers.Registration.{regproducer, registered_first}
use twig_system_contracts.System.Producers.Policy.{
  set_proposed_finalizers, policy_of, get_last_proposed_finalizers,
}
use twig_system_contracts.System.Producers.Keys.{
  find_key, get_next_finalizer_key_id, regfinkey, actfinkey, delfinkey, proposed_anew,
}
use twig_system_contracts.System.Producers.Room.{HasRoom}
use twig_system_contracts.System.Producers.KeyCalls.{KeyAct, IsRing, with_key}
use twig_system_contracts.System.Producers.KeyRuns.{run_keys, run_keys-IsRing}
use twig_system_contracts.System.Producers.KeyReturn.{regfinkey-delfinkey}
use twig_system_contracts.System.Producers.Quorum.{Proposes, set_proposed_finalizers-Proposes}
use twig_system_contracts.System.Producers.Elections.{
  prototalvote, top_of, update_elected_producers, switchtosvnn,
}
use twig_system_contracts.System.Producers.Elected.{Elects, update_elected_producers-Elects}
use twig_system_contracts.System.Producers.Unelected.{
  ProducerAct, IsUnvoted, run_producer-IsUnvoted, switchtosvnn-IsUnvoted,
}

abbrev head_of : List ℕ → ℕ
head_of [] = 0
head_of (x ∷ xs) = x

-- Keys decode to their lengths, and hash to those.
abbrev host : Host
host = record {
  is_valid = λ a. true;
  no_key = [];
  decode_public_key = λ text. ok (len text ∷ []);
  decode_signature = λ text. ok [];
  pop_verify = λ key pop. true;
  sha256 = head_of;
  set_finalizers = λ policy. ok tt;
  set_proposed_producers = λ schedule. some 1;
  unset = [];
}

instance abbrev plain : NameLib
plain = record { suffix = λ n. n; text = λ n. "twig" }

abbrev env : Env
env = record { self = 5; has_auth = λ n. true; is_account = λ n. true; now = 60 }

abbrev authority : SigningAuthority
authority = record { threshold = 1; keys = (3 ∷ [], 1) ∷ [] }

abbrev producer : Producer
producer = registered_first host 60 7 authority "u" 1

-- Producer 7 is registered, and nothing else.
abbrev start : Registry
start = record {
  global = some (record { last_producer_schedule_update = 0; last_producer_schedule_size = 0 });
  producers = store 7 producer (empty_table Producer);
  finkeys = empty_table FinKey;
  finalizers = empty_table Finalizer;
  finkeyidgen = empty_table ℕ;
  lastpropfins = empty_table (List FinalizerAuthInfo);
  cached = none;
  policies = [];
}

start-IsRing : IsRing host start
unfolding find rows empty_table sum sum_in
start-IsRing = record {
  keyed = λ k row h. absurd (ground arith);
  given = λ k row h. absurd (ground arith);
  distinct = λ j k a b h i s. absurd (ground arith);
  counts = λ n. refl;
  registered = λ n f h. absurd (ground arith);
  active = λ n f h. absurd (ground arith);
}

start-HasRoom : HasRoom 4 start.finkeyidgen start.finalizers
unfolding find rows empty_table
start-HasRoom = record { ids = omega arith; keys = λ n. omega arith }

abbrev key_0 : FinKey
key_0 = record {
  id = 0;
  finalizer_name = 7;
  finalizer_key = "PUB_BLS_a";
  finalizer_key_binary = 9 ∷ [];
}

abbrev key_1 : FinKey
key_1 = record {
  id = 1;
  finalizer_name = 7;
  finalizer_key = "PUB_BLS_bb";
  finalizer_key_binary = 10 ∷ [];
}

abbrev acts : List (Env × KeyAct)
acts =
    (env, KeyAct.register_key 7 "PUB_BLS_a" "SIG_BLS")
    ∷ (env, KeyAct.register_key 7 "PUB_BLS_bb" "SIG_BLS")
    ∷ (env, KeyAct.activate_key 7 "PUB_BLS_bb")
    ∷ (env, KeyAct.delete_key 7 "PUB_BLS_a")
    ∷ []

abbrev row : ℕ → ℕ → ℕ → Finalizer
row id byte count = record {
  finalizer_name = 7;
  active_key_id = id;
  active_key_binary = byte ∷ [];
  finalizer_key_count = count;
}

-- The second key of finalizer 7 has taken the place of the first.
abbrev end : Registry
end = record start {
  finkeys = erase 0 (store 1 key_1 (store 0 key_0 start.finkeys));
  finalizers =
      store 7 (row 1 10 1)
        (store 7 (row 1 10 2) (store 7 (row 0 9 2) (store 7 (row 0 9 1) start.finalizers)));
  finkeyidgen = store 0 1 (store 0 0 start.finkeyidgen);
}

acts-run : run_keys host acts start ≡ ok end
unfolding regfinkey actfinkey delfinkey find_key get_next_finalizer_key_id proposed_anew find rows
    store erase empty_table get_last_proposed_finalizers
acts-run = refl

run_keys-IsRing_example : IsRing host end
run_keys-IsRing_example = run_keys-IsRing host acts start end start-HasRoom start-IsRing acts-run

start-HasRoom_1 : HasRoom 1 start.finkeyidgen start.finalizers
unfolding find rows empty_table
start-HasRoom_1 = record { ids = omega arith; keys = λ n. omega arith }

-- Finalizer 7 with its first key.
abbrev one_key : Registry
one_key = with_key key_0 start

one_key-run : regfinkey host env 7 "PUB_BLS_a" "SIG_BLS" start ≡ ok one_key
unfolding regfinkey find_key get_next_finalizer_key_id find rows store empty_table
one_key-run = refl

regfinkey-delfinkey_example :
    (s'' : Registry) × (delfinkey host env 7 "PUB_BLS_a" one_key ≡ ok s'')
    × ((k : ℕ) → find k s''.finkeys ≡ find k start.finkeys)
    × ((n : ℕ) → find n s''.finalizers ≡ find n start.finalizers)
regfinkey-delfinkey_example =
    regfinkey-delfinkey host env 7 "PUB_BLS_a" "SIG_BLS" start one_key start-HasRoom_1 start-IsRing
      one_key-run

abbrev entry : ℕ → ℕ → FinalizerAuthInfo
entry id byte = record {
  key_id = id;
  fin_authority = record { description = "twig"; weight = 1; public_key = byte ∷ [] };
}

abbrev two : List FinalizerAuthInfo
two = entry 4 9 ∷ entry 2 8 ∷ []

abbrev in_order : List FinalizerAuthInfo
in_order = entry 2 8 ∷ entry 4 9 ∷ []

-- The two are on record, and the host has been told.
abbrev proposed : Registry
proposed = record start {
  lastpropfins = store 0 in_order start.lastpropfins;
  cached = some in_order;
  policies = policy_of in_order ∷ [];
}

proposed-run : set_proposed_finalizers host two start ≡ ok proposed
unfolding set_proposed_finalizers sort_by get_last_proposed_finalizers find store empty_table
proposed-run = refl

set_proposed_finalizers-Proposes_example : Proposes host two start proposed
set_proposed_finalizers-Proposes_example =
    set_proposed_finalizers-Proposes host two start proposed (refl, (refl, tt)) proposed-run

start-IsUnvoted : IsUnvoted start.producers
unfolding find store empty_table
start-IsUnvoted = λ k row h. ground arith

run_producer-IsUnvoted_example :
    IsUnvoted (store 8 (registered_first host 60 8 authority "u" 1) start.producers)
unfolding regproducer find store empty_table
run_producer-IsUnvoted_example =
    run_producer-IsUnvoted host env (ProducerAct.register 8 authority "u" 1) start.producers
      (store 8 (registered_first host 60 8 authority "u" 1) start.producers) start-IsUnvoted refl

abbrev global : Global
global = record { last_producer_schedule_update = 0; last_producer_schedule_size = 0 }

switchtosvnn-IsUnvoted_example : switchtosvnn host env start ≢ ok start
switchtosvnn-IsUnvoted_example = switchtosvnn-IsUnvoted host env start start start-IsUnvoted

-- Producer 7 with one vote, the double 1.0, and its key.
abbrev voted : Registry
voted = record one_key {
  producers = store 7 (record producer { total_votes = 1023 * 2 ^ 52 }) start.producers;
}

abbrev elected_7 : Registry
elected_7 = record voted {
  global = some (record { last_producer_schedule_update = 90; last_producer_schedule_size = 1 });
  lastpropfins = store 0 (entry 0 9 ∷ []) voted.lastpropfins;
  cached = some (entry 0 9 ∷ []);
  policies = policy_of (entry 0 9 ∷ []) ∷ [];
}

election-run : update_elected_producers host 90 voted ≡ ok elected_7
unfolding update_elected_producers prototalvote top_of set_proposed_finalizers sort_by
    get_last_proposed_finalizers find rows store empty_table
election-run = refl

update_elected_producers-Elects_example : Elects host 90 global voted elected_7
update_elected_producers-Elects_example =
    update_elected_producers-Elects host 90 global voted elected_7 refl election-run
