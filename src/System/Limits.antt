-- ===== src/System/Limits.antt =====
-- How setparams hands the parameters of the chain to the host where SYSTEM_BLOCKCHAIN_PARAMETERS is
-- set (contracts/eosio.system/src/actions/1.config.cpp, contracts/eosio.system/include/
-- eosio.system.hpp: blockchain_parameters_v1).
use mathlib.Core.List.{append_assoc, append-nil}
use twig_system_contracts.Prelude.{
  ℕ, zero, suc, ◌+◌, leb, Option, none, some, List, [], ◌∷◌, ◌++◌, length, ◌≡◌, refl, ◌∙◌,
  Option-cases, inl, inr,
}
use twig_system_contracts.Chain.{
  Env, require_auth, Result, ok, err, refused, no_singleton, ◌>>=◌, ◌>>◌, >>=-ok, check, or_fail,
}
use twig_system_contracts.System.Producers.{Codec}

pub record Limits : Type 0 where
  pub max_block_net_usage : ℕ
  pub target_block_net_usage_pct : ℕ
  pub max_transaction_net_usage : ℕ
  pub base_per_transaction_net_usage : ℕ
  pub net_usage_leeway : ℕ
  pub context_free_discount_net_usage_num : ℕ
  pub context_free_discount_net_usage_den : ℕ
  pub max_block_cpu_usage : ℕ
  pub target_block_cpu_usage_pct : ℕ
  pub max_transaction_cpu_usage : ℕ
  pub min_transaction_cpu_usage : ℕ
  pub max_transaction_lifetime : ℕ
  pub deferred_trx_expiration_window : ℕ
  pub max_transaction_delay : ℕ
  pub max_inline_action_size : ℕ
  pub max_inline_action_depth : ℕ
  pub max_authority_depth : ℕ
  -- a binary extension
  pub max_action_return_value_size : Option ℕ

-- The row of `chainparams`, which has no extension.
pub record StoredLimits : Type 0 where
  pub blockchain : Limits
  pub max_ram_size : ℕ

-- `++buf[0]`
abbrev pub raise_first : List ℕ → List ℕ
raise_first [] = []
raise_first (n ∷ rest) = (n + 1) ∷ rest

-- The parameters under their numbers.
abbrev pub numbered : Limits → List (ℕ × ℕ)
numbered p =
    (0, p.max_block_net_usage)
    ∷ (1, p.target_block_net_usage_pct)
    ∷ (2, p.max_transaction_net_usage)
    ∷ (3, p.base_per_transaction_net_usage)
    ∷ (4, p.net_usage_leeway)
    ∷ (5, p.context_free_discount_net_usage_num)
    ∷ (6, p.context_free_discount_net_usage_den)
    ∷ (7, p.max_block_cpu_usage)
    ∷ (8, p.target_block_cpu_usage_pct)
    ∷ (9, p.max_transaction_cpu_usage)
    ∷ (10, p.min_transaction_cpu_usage)
    ∷ (11, p.max_transaction_lifetime)
    ∷ (12, p.deferred_trx_expiration_window)
    ∷ (13, p.max_transaction_delay)
    ∷ (14, p.max_inline_action_size)
    ∷ (15, p.max_inline_action_depth)
    ∷ (16, p.max_authority_depth)
    ∷ elim p.max_action_return_value_size [ none ↦ [] | some size ↦ (17, size) ∷ [] ]

-- `codec k` is the stream operator of the member that is written after the number k.
module _ (codec : ℕ → Codec ℕ) where
  -- `uint8_t(k) << value`
  abbrev pub put_entry : ℕ → ℕ → List ℕ
  put_entry k value = k ∷ (codec k).put value

  -- The stream before the test of the extension.
  unfoldable pub put_limits : Limits → List ℕ
  put_limits p =
      17
      ∷ (put_entry 0 p.max_block_net_usage
          ++ (put_entry 1 p.target_block_net_usage_pct
              ++ (put_entry 2 p.max_transaction_net_usage
                  ++ (put_entry 3 p.base_per_transaction_net_usage
                      ++ (put_entry 4 p.net_usage_leeway
                          ++ (put_entry 5 p.context_free_discount_net_usage_num
                              ++ (put_entry 6 p.context_free_discount_net_usage_den
                                  ++ (put_entry 7 p.max_block_cpu_usage
                                      ++ (put_entry 8 p.target_block_cpu_usage_pct
                                          ++ (put_entry 9 p.max_transaction_cpu_usage
                                              ++ (put_entry 10 p.min_transaction_cpu_usage
                                                  ++ (put_entry 11 p.max_transaction_lifetime
                                                      ++ (put_entry 12
                                                            p.deferred_trx_expiration_window
                                                          ++ (put_entry 13 p.max_transaction_delay
                                                            ++ (put_entry 14
                                                            p.max_inline_action_size
                                                            ++ (put_entry 15
                                                            p.max_inline_action_depth
                                                            ++ put_entry 16
                                                            p.max_authority_depth))))))))))))))))

  -- `buf`, up to where the stream has come.
  unfoldable pub packed_limits : Limits → List ℕ
  packed_limits p = elim p.max_action_return_value_size [
    | none ↦ put_limits p
    | some size ↦ raise_first (put_limits p ++ put_entry 17 size)
  ]

  -- setparams. What is stored keeps its ram size and takes all of the parameters but the extension.
  unfoldable pub setparams_packed :
      (set_parameters_packed : List ℕ → Result (Unit {0}))
      → Env
      → Limits
      → Option StoredLimits
      → Result StoredLimits
  setparams_packed set_parameters_packed e params stored = do
    require_auth e e.self
    chainparams ← or_fail stored no_singleton
    check (leb 3 params.max_authority_depth) "max_authority_depth should be at least 3"
    set_parameters_packed (packed_limits params)
    ok (record chainparams { blockchain = record params { max_action_return_value_size = none } })

  -- What the host documents of the format: a count, and that many numbers, each with its value.
  unfoldable pub get_entries : ℕ → List ℕ → Result (List (ℕ × ℕ) × List ℕ)
  get_entries zero bytes = ok ([], bytes)
  get_entries (suc n) [] = err refused
  get_entries (suc n) (k ∷ bytes) = do
    one ← (codec k).get bytes
    others ← get_entries n one.1
    ok ((k, one.0) ∷ others.0, others.1)

  unfoldable pub get_limits : List ℕ → Result (List (ℕ × ℕ) × List ℕ)
  get_limits [] = err refused
  get_limits (n ∷ bytes) = get_entries n bytes

  -- The bytes of a list of numbers and values.
  unfoldable put_entries : List (ℕ × ℕ) → List ℕ
  put_entries [] = []
  put_entries ((k, value) ∷ rest) = put_entry k value ++ put_entries rest

  abbrev pub AllInFormat : List (ℕ × ℕ) → Type 0
  AllInFormat [] = Unit {0}
  AllInFormat ((k, value) ∷ rest) = (codec k).InFormat value × AllInFormat rest

  get-put_entries :
      (l : List (ℕ × ℕ)) → AllInFormat l → get_entries (length l) (put_entries l) ≡ ok (l, [])
  unfolding get_entries put_entries
  get-put_entries [] fit = refl
  get-put_entries ((k, value) ∷ rest) (fit, all) =
      let next = put_entries rest in
      >>=-ok ((codec k).get ((codec k).put value ++ next)) _ ((codec k).get_put value next fit)
      ∙ >>=-ok (get_entries (length rest) next) _ (get-put_entries rest all)

  -- The buffer holds the count of the parameters and each under its number.
  packed_limits-entries :
      (p : Limits) → packed_limits p ≡ length (numbered p) ∷ put_entries (numbered p)
  unfolding packed_limits put_limits put_entries
  packed_limits-entries p = elim (Option-cases p.max_action_return_value_size) [
    | inl absent ↦ rw absent (simp (append_assoc, append-nil))
    | inr (size, there) ↦ rw there (simp (append_assoc, append-nil))
  ]

  -- Where each parameter is a value of its type, the host reads the buffer as the parameters under
  -- their numbers, 17 of them or 18 where the extension is there, with nothing left over.
  pub get-packed_limits :
      (p : Limits) → AllInFormat (numbered p) → get_limits (packed_limits p) ≡ ok (numbered p, [])
  unfolding get_limits
  get-packed_limits p fit = rw (packed_limits-entries p) (get-put_entries (numbered p) fit)
