-- ===== src/System/LimitsTests.antt =====
-- Parameters of the chain that are packed and read, with one byte for each value.
use twig_system_contracts.Prelude.{ℕ, true, none, some, List, [], ◌∷◌, ◌≡◌, refl, arith}
use twig_system_contracts.Chain.{Env, Result, ok, err, refused}
use twig_system_contracts.System.Producers.{Codec}
use twig_system_contracts.System.Limits.{
  Limits, StoredLimits, packed_limits, setparams_packed, get_limits, numbered, get-packed_limits,
}

abbrev get_byte : List ℕ → Result (ℕ × List ℕ)
get_byte [] = err refused
get_byte (b ∷ rest) = ok (b, rest)

abbrev one_byte : ℕ → Codec ℕ
one_byte k = record {
  put = λ n. n ∷ [];
  get = get_byte;
  InFormat = λ n. Unit {0};
  get_put = λ n rest fit. refl;
}

abbrev limits : Limits
limits = record {
  max_block_net_usage = 50;
  target_block_net_usage_pct = 51;
  max_transaction_net_usage = 52;
  base_per_transaction_net_usage = 53;
  net_usage_leeway = 54;
  context_free_discount_net_usage_num = 55;
  context_free_discount_net_usage_den = 56;
  max_block_cpu_usage = 57;
  target_block_cpu_usage_pct = 58;
  max_transaction_cpu_usage = 59;
  min_transaction_cpu_usage = 60;
  max_transaction_lifetime = 61;
  deferred_trx_expiration_window = 62;
  max_transaction_delay = 63;
  max_inline_action_size = 64;
  max_inline_action_depth = 4;
  max_authority_depth = 6;
  max_action_return_value_size = some 67;
}

abbrev env : Env
env = record { self = 5; has_auth = λ n. true; is_account = λ n. true; now = 60 }

abbrev stored : StoredLimits
stored = record {
  blockchain = record limits { max_block_net_usage = 1; max_action_return_value_size = none };
  max_ram_size = 9;
}

setparams_packed-stored :
    setparams_packed one_byte (λ l. ok tt) env limits (some stored)
    ≡ ok (record {
      blockchain = record limits { max_action_return_value_size = none };
      max_ram_size = 9;
    })
unfolding setparams_packed
setparams_packed-stored = refl

get-packed_limits_example :
    get_limits one_byte (packed_limits one_byte limits) ≡ ok (numbered limits, [])
get-packed_limits_example = get-packed_limits one_byte limits (omega arith)
