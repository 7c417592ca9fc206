-- ===== src/System/Lucky/Tests.antt =====
-- The theorems on the lucky number and its chunks at concrete inputs.
use twig_system_contracts.Prelude.{
  ℕ, some, List, [], ◌∷◌, pos, pos_part, ◌+◌, ◌*◌, ◌<◌, ◌≡◌, refl, arith, true,
}
use twig_system_contracts.Chain.{Table, store, rows, find, empty_table, Env, Send, ok}
use twig_system_contracts.Chain.Listed.{listed, bounded}
use twig_system_contracts.Token.State.{twig_symbol, Account, Supplies}
use twig_system_contracts.Bank.State.{team_account}
use twig_system_contracts.System.State.{
  LuckyNumber, lucky_number_odds, bank_account, chunks_account,
}
use twig_system_contracts.System.Random.{Scale, Hashes, new_provider, get_rand}
use twig_system_contracts.System.Calls.{RngCall}
use twig_system_contracts.System.Lucky.Blocks.{roll_of, process_rng_calls}
use twig_system_contracts.System.Lucky.Progress.{
  IsLucky, Draws, after_draws, hits, progress, after_draws-progress, after_draws-epoch,
}
use twig_system_contracts.System.Lucky.Calling.{AreCalls, process_rng_calls-active_calls}
use twig_system_contracts.System.Lucky.Chunks.{Shares, onchunk, share_out, issue_chunk}
use twig_system_contracts.System.Lucky.Heard.{payees, issues, onchunk-payees}

-- Numbers that scale to zero, so that every block hits.
abbrev low : Scale
low = record { D = ℕ; of_uint = λ n. n; times = λ a b. a * b; over = λ a b. a; to_uint32 = λ a. 0 }

abbrev env : Env
env = record { self = 5; has_auth = λ n. true; is_account = λ n. true; now = 60 }

abbrev bank : Env
bank = record { self = bank_account; has_auth = λ n. true; is_account = λ n. true; now = 60 }

-- The last chunk of the third epoch is gone.
abbrev lucky : LuckyNumber
lucky = record {
  seed = [];
  odds = lucky_number_odds;
  epoch = 3;
  chunks_remaining = 0;
  blocks_since = 0;
  total_blocks = 0;
  producer = 8;
}

lucky-IsLucky : IsLucky lucky
lucky-IsLucky = record { chunks = omega arith; begun = omega arith }

abbrev draws : Draws
draws = (7, new_provider [] 1) ∷ []

after_draws-progress_example :
    IsLucky (after_draws low env lucky draws)
    × (progress (after_draws low env lucky draws) ≡ progress lucky + hits low env lucky draws)
after_draws-progress_example = after_draws-progress low env lucky draws lucky-IsLucky (omega arith)

one_hit : lucky.chunks_remaining < hits low env lucky draws
unfolding roll_of get_rand
one_hit = omega arith

after_draws-epoch_example : 3 < (after_draws low env lucky draws).epoch
after_draws-epoch_example =
    after_draws-epoch low env lucky draws lucky-IsLucky (omega arith) one_hit

abbrev hashes : Hashes
hashes = record { sha256 = λ l. l; sha512 = λ l. l }

-- One call that is active and one that is not.
abbrev calls : Table RngCall
calls =
    store 2 (record { index = 2; contract = 6; action = 9; active = 1 })
      (store 1 (record { index = 1; contract = 6; action = 8; active = 0 }) (empty_table RngCall))

process_rng_calls-active_calls_example :
    AreCalls
      (record { index = 2; contract = 6; action = 9; active = 1 } ∷ [])
      (process_rng_calls hashes lucky (new_provider [] 1) calls).0
unfolding rows store empty_table
process_rng_calls-active_calls_example =
    process_rng_calls-active_calls hashes lucky (new_provider [] 1) calls

-- Every share is one.
abbrev ones : Shares
ones = record {
  D = ℕ;
  of_int = pos_part;
  decimal = λ n d. n;
  minus = λ a b. a;
  times = λ a b. a * b;
  over = λ a b. a;
  to_int64 = λ a. ok (pos 1);
}

abbrev accounts : Table Account
accounts =
    store chunks_account (record { owner = chunks_account; balance = (twig_symbol, pos 4) ∷ [] })
      (empty_table Account)

abbrev supplies : Supplies
supplies = record { supply = (twig_symbol, pos 10) ∷ []; max_supply = (twig_symbol, pos 1000) ∷ [] }

abbrev sent : List Send
sent = issue_chunk (pos 1) ∷ share_out (pos 1) (pos 1) (pos 1) (pos 1)

chunk-run : onchunk ones env (some lucky) accounts (some supplies) ≡ ok sent
unfolding onchunk find store empty_table
chunk-run = refl

onchunk-payees_example : (payees bank lucky sent ≡ team_account ∷ 8 ∷ []) × (issues sent ≡ 1)
onchunk-payees_example =
    onchunk-payees ones env bank lucky accounts (some supplies) sent refl chunk-run
