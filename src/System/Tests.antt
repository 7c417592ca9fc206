-- ===== src/System/Tests.antt =====
-- Runs of eosio.system at concrete tables, and each theorem at a concrete input.
use twig_system_contracts.Prelude.{
  ℕ, suc, true, some, List, [], ◌∷◌, ◌≡◌, ◌≢◌, ◌↔◌, ◌⊎◌, refl, arith,
}
use twig_system_contracts.Chain.{Table, find, rows, store, empty_table, ok}
use twig_system_contracts.Chain.Listed.{listed}
use twig_system_contracts.System.Blocks.{
  BlockInfo, BatchInfo, no_error, block_height_from_id, add_to_blockinfo_table,
  get_latest_block_batch_info,
}
use twig_system_contracts.System.Accounts.{
  LimitAuth, Whitelisted, owner_permission, limitauthchg, member, check_auth_change, newaccount,
}
use twig_system_contracts.System.Authorities.{
  limitauthchg-MayChange, HasTwelve, IsDeep, newaccount_iff,
}
use twig_system_contracts.System.Contracts.{ContractInfo}
use twig_system_contracts.System.Window.{IsRecent, info_of}
use twig_system_contracts.System.Recording.{MovesOn, add_to_blockinfo_table-MovesOn}
use twig_system_contracts.System.Batches.{Answers, get_latest_block_batch_info-IsBatch}
use twig_system_contracts.Chain.{NameLib, suffix, Env}
use twig_system_contracts.System.Calls.{RngCall, IsIndexed}

-- Block 259 is the only one on record.
abbrev blocks : Table BlockInfo
blocks = store 259 (info_of 259 7) (empty_table BlockInfo)

abbrev block_id : List ℕ
block_id = 0 ∷ 0 ∷ 1 ∷ 3 ∷ 200 ∷ []

blocks-IsRecent : IsRecent (block_height_from_id block_id) blocks
unfolding find store empty_table block_height_from_id
blocks-IsRecent = record {
  keyed = λ k row h. ground arith;
  past = λ k row h. ground arith;
  fresh = λ k row h. ground arith;
}

add_to_blockinfo_table-MovesOn_example :
    (t' : Table BlockInfo) × (add_to_blockinfo_table block_id 9 blocks ≡ ok t')
    × MovesOn (suc (block_height_from_id block_id)) 9 blocks t'
unfolding block_height_from_id
add_to_blockinfo_table-MovesOn_example =
    add_to_blockinfo_table-MovesOn block_id 9 blocks (omega arith) blocks-IsRecent

abbrev two_blocks : Table BlockInfo
two_blocks = store 260 (info_of 260 9) blocks

abbrev batch : BatchInfo
batch = record {
  batch_start_height = 259;
  batch_start_timestamp = 7;
  batch_current_end_height = 260;
  batch_current_end_timestamp = 9;
}

batch-answer :
    get_latest_block_batch_info 1 3 two_blocks
    ≡ record { result = some batch; error_code = no_error }
unfolding get_latest_block_batch_info find rows store empty_table
batch-answer = refl

get_latest_block_batch_info-IsBatch_example :
    ((latest : BlockInfo) × Answers 1 3 two_blocks batch latest) × (no_error ≡ no_error)
get_latest_block_batch_info-IsBatch_example =
    get_latest_block_batch_info-IsBatch 1 3 two_blocks batch no_error batch-answer

instance abbrev plain : NameLib
plain = record { suffix = λ n. n; text = λ n. "twig" }

abbrev env : Env
env = record { self = 5; has_auth = λ n. true; is_account = λ n. true; now = 60 }

abbrev no_limits : Table LimitAuth
no_limits = empty_table LimitAuth

-- Account 9 lets nobody but its permissions 3 and "owner" change its authorities.
abbrev limits : Table LimitAuth
limits =
    store 9
      (record {
        version = 0;
        account = 9;
        allow_perms = 3 ∷ owner_permission ∷ [];
        disallow_perms = [];
      })
      no_limits

limitauthchg-limits : limitauthchg env 9 (3 ∷ owner_permission ∷ []) [] no_limits ≡ ok limits
unfolding limitauthchg member find store empty_table
limitauthchg-limits = refl

limitauthchg-MayChange_example :
    ((check_auth_change (λ account permission. true) 9 (some 3) limits ≡ ok tt)
      ↔ (member 3 (3 ∷ owner_permission ∷ []) ≡ true))
    × (member owner_permission (3 ∷ owner_permission ∷ []) ≡ true)
limitauthchg-MayChange_example =
    limitauthchg-MayChange env (λ account permission. true) 9 3 (3 ∷ owner_permission ∷ []) []
      no_limits limits limitauthchg-limits refl (omega arith)

-- "aaaaaaaaaaaa"_n
abbrev twelve_a : ℕ
twelve_a = 3570337562653461600

newaccount_iff_example : (newaccount env 9 twelve_a (empty_table Whitelisted) ≡ ok tt) ↔ (
    IsDeep env 9 (empty_table Whitelisted)
    ⊎ (HasTwelve twelve_a ⊎ ((suffix twelve_a ≢ twelve_a) × (◌≡◌ {A = ℕ} 9 (suffix twelve_a)))))
newaccount_iff_example = newaccount_iff env 9 twelve_a (empty_table Whitelisted)

-- A call that random numbers are given to.
abbrev call : RngCall
call = record { index = 1; contract = 8; action = 2; active = 0 }

abbrev calls : Table RngCall
calls = store 1 call (empty_table RngCall)

calls-IsIndexed : IsIndexed calls
unfolding find store empty_table
calls-IsIndexed k row h = ground arith

-- A stand-in for a hash function.
abbrev digest : List ℕ → List ℕ
digest bytes = []

abbrev no_info : Table ContractInfo
no_info = empty_table ContractInfo
