-- ===== src/System/Producers/Keys.antt =====
-- The keys of the finalizers (contracts/eosio.system/src/actions/3.producers.cpp: regfinkey,
-- actfinkey, delfinkey; contracts/eosio.system/src/functions/functions.producers.cpp).
use text.Mathlib.Text.{starts_with}
use twig_system_contracts.Prelude.{
  ℕ, Bool, false, not, Option, none, some, List, [], ◌∷◌, String, ◌+◌, ◌-◌, ◌%◌, ◌^◌, ltb, ◌==◌,
  if◌then◌else◌, ◌||◌,
}
use twig_system_contracts.Chain.{
  MultiIndex, Table, find, rows, store, erase, emplace, Env, require_auth, Result, ok, message,
  ◌>>=◌, ◌>>◌, check, or_fail, is_some, is_none,
}
use twig_system_contracts.System.Producers.State.{
  FinKey, Finalizer, FinalizerAuthInfo, Host, Registry,
}
use twig_system_contracts.System.Producers.Policy.{
  filled, get_last_proposed_finalizers, set_proposed_finalizers,
}

abbrev pub to_binary : Host → String → Result (List ℕ)
to_binary host finalizer_key = do
  check (starts_with finalizer_key "PUB_BLS") "finalizer key does not start with PUB_BLS"
  host.decode_public_key finalizer_key

abbrev pub get_finalizer_key_hash : Host → String → Result ℕ
get_finalizer_key_hash host finalizer_key = do
  fin_key_g1 ← to_binary host finalizer_key
  ok (host.sha256 fin_key_g1)

-- `by_fin_key`
abbrev pub by_fin_key : Host → FinKey → ℕ
by_fin_key host row = host.sha256 row.finalizer_key_binary

-- `find` in the index by hash, on the rows in the order of their primary keys.
abbrev pub first_with : Host → ℕ → List (ℕ × FinKey) → Option FinKey
first_with host hash [] = none
first_with host hash ((k, row) ∷ rest) =
    if by_fin_key host row == hash then some row else first_with host hash rest

-- The search of `std::lower_bound`, and the test that follows it, on entries in the order of their
-- ids; what is done to the entry that is found.
abbrev pub lower_bound : ℕ → List FinalizerAuthInfo → Option FinalizerAuthInfo
lower_bound id [] = none
lower_bound id (k ∷ rest) = if ltb k.key_id id then lower_bound id rest else some k

abbrev pub replace_first : ℕ → FinKey → List FinalizerAuthInfo → List FinalizerAuthInfo
replace_first id key [] = []
replace_first id key (k ∷ rest) =
    if ltb k.key_id id
    then k ∷ replace_first id key rest
    else record {
      key_id = key.id;
      fin_authority = record k.fin_authority { public_key = key.finalizer_key_binary };
    }
      ∷ rest

abbrev pub is_proposed : ℕ → List FinalizerAuthInfo → Bool
is_proposed id last = elim (lower_bound id last) [ none ↦ false | some k ↦ k.key_id == id ]

-- The row of the finalizer after one more of its keys is written.
abbrev pub one_more : FinKey → Option Finalizer → Finalizer
one_more key none = record {
  finalizer_name = key.finalizer_name;
  active_key_id = key.id;
  active_key_binary = key.finalizer_key_binary;
  finalizer_key_count = 1;
}
one_more key (some old) = record old {
  finalizer_key_count = (old.finalizer_key_count + 1) % 2 ^ 32;
}

module _ ⦃mi : MultiIndex⦄ where
  -- The next id, and the row that is written: the first id is zero.
  unfoldable pub get_next_finalizer_key_id : Table ℕ → ℕ × Table ℕ
  get_next_finalizer_key_id finkeyidgen =
      let next_id : ℕ = elim (find 0 finkeyidgen) [ none ↦ 0 | some last ↦ (last + 1) % 2 ^ 64 ] in
      (next_id, store 0 next_id finkeyidgen)

  abbrev pub get_finalizer_itr : ℕ → Table Finalizer → Result Finalizer
  get_finalizer_itr finalizer_name finalizers = do
    finalizer ← or_fail (find finalizer_name finalizers) (message "finalizer ")
    check (ltb 0 finalizer.finalizer_key_count) "finalizer "
    ok finalizer

  -- The finalizers without one key of a finalizer.
  abbrev pub one_less : ℕ → Finalizer → Table Finalizer → Table Finalizer
  one_less finalizer_name finalizer finalizers =
      if finalizer.finalizer_key_count == 1
      then erase finalizer_name finalizers
      else store finalizer_name
          (record finalizer { finalizer_key_count = finalizer.finalizer_key_count - 1 }) finalizers

module _ ⦃mi : MultiIndex⦄ (host : Host) where
  -- `find` in the index by hash.
  unfoldable pub find_key : ℕ → Table FinKey → Option FinKey
  find_key hash finkeys = first_with host hash (rows finkeys)

  unfoldable pub regfinkey : Env → ℕ → String → String → Registry → Result Registry
  unfolding get_next_finalizer_key_id find_key
  regfinkey e finalizer_name finalizer_key proof_of_possession s = do
    require_auth e finalizer_name
    check (is_some (find finalizer_name s.producers)) "this finalizer is not a registered producer"
    check (starts_with proof_of_possession "SIG_BLS")
        "proof of possession signature does not start with SIG_BLS"
    fin_key_g1 ← to_binary host finalizer_key
    pop_g2 ← host.decode_signature proof_of_possession
    check (is_none (find_key (host.sha256 fin_key_g1) s.finkeys)) "duplicate finalizer key: "
    check (host.pop_verify fin_key_g1 pop_g2) "proof of possession check failed"
    let next = get_next_finalizer_key_id s.finkeyidgen
    let key : FinKey = record {
      id = next.0;
      finalizer_name = finalizer_name;
      finalizer_key = finalizer_key;
      finalizer_key_binary = fin_key_g1;
    }
    finkeys ← emplace next.0 key s.finkeys
    ok (record s {
      finkeys = finkeys;
      finkeyidgen = next.1;
      finalizers =
          store finalizer_name (one_more key (find finalizer_name s.finalizers)) s.finalizers;
    })

  -- The row of the key, which is registered and belongs to the finalizer.
  abbrev pub own_key : ℕ → String → String → Table FinKey → Result FinKey
  own_key finalizer_name finalizer_key text finkeys = do
    hash ← get_finalizer_key_hash host finalizer_key
    key ← or_fail (find_key hash finkeys) (message "finalizer key was not registered")
    check (key.finalizer_name == finalizer_name) text
    ok key

  -- Makes a key the active one of its finalizer.
  abbrev pub activated : ℕ → FinKey → Finalizer → Registry → Registry
  activated finalizer_name key finalizer s = record s {
    finalizers =
        store finalizer_name
          (record finalizer {
            active_key_id = key.id;
            active_key_binary = key.finalizer_key_binary;
          })
          s.finalizers;
    cached = filled host s;
  }

  -- Proposes the policy again with the new key, if the old one was proposed.
  unfoldable pub proposed_anew : Finalizer → FinKey → Registry → Result Registry
  unfolding get_last_proposed_finalizers set_proposed_finalizers
  proposed_anew old key s =
      let last = get_last_proposed_finalizers host s in
      if is_proposed old.active_key_id last
      then set_proposed_finalizers host (replace_first old.active_key_id key last) s
      else ok s

  unfoldable pub actfinkey : Env → ℕ → String → Registry → Result Registry
  unfolding find_key proposed_anew
  actfinkey e finalizer_name finalizer_key s = do
    require_auth e finalizer_name
    finalizer ← get_finalizer_itr finalizer_name s.finalizers
    key ←
        own_key finalizer_name finalizer_key "finalizer key was not registered by the finalizer"
          s.finkeys
    check (not (key.id == finalizer.active_key_id)) "finalizer key was already active"
    proposed_anew finalizer key (activated finalizer_name key finalizer s)

  unfoldable pub delfinkey : Env → ℕ → String → Registry → Result Registry
  unfolding find_key
  delfinkey e finalizer_name finalizer_key s = do
    require_auth e finalizer_name
    finalizer ← get_finalizer_itr finalizer_name s.finalizers
    key ← own_key finalizer_name finalizer_key "finalizer key " s.finkeys
    check (not (key.id == finalizer.active_key_id) || finalizer.finalizer_key_count == 1)
        "cannot delete an active key unless it is the last registered finalizer key, has "
    ok (record s {
      finalizers = one_less finalizer_name finalizer s.finalizers;
      finkeys = erase key.id s.finkeys;
    })
