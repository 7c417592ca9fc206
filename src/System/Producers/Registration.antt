-- ===== src/System/Producers/Registration.antt =====
-- Who produces blocks (contracts/eosio.system/src/actions/3.producers.cpp: regproducer, unregprod;
-- contracts/eosio.system/src/actions/2.admin.cpp: rmvproducer).
use twig_system_contracts.Prelude.{
  ℕ, true, false, none, some, List, [], ◌∷◌, String, ltb, ◌==◌, if◌then◌else◌,
}
use twig_system_contracts.Chain.{
  MultiIndex, Table, find, store, emplace, Env, require_auth, self_or_owner, size, Result, ok,
  message, ◌>>=◌, ◌>>◌, check, or_fail,
}
use twig_system_contracts.System.Producers.State.{SigningAuthority, Producer, Host}

-- The key of an authority that has just one.
abbrev pub only_key : Host → List (List ℕ × ℕ) → List ℕ
only_key host [] = host.no_key
only_key host (k ∷ []) = k.0
only_key host (k ∷ l ∷ keys) = host.no_key

-- What `regproducer` makes of a row, and the row that it adds.
abbrev pub registered_again : Host → ℕ → SigningAuthority → String → ℕ → Producer → Producer
registered_again host now producer_authority url location row = record row {
  producer_key = only_key host producer_authority.keys;
  is_active = true;
  url = url;
  location = location;
  producer_authority = some producer_authority;
  last_claim_time = if row.last_claim_time == 0 then now else row.last_claim_time;
}

abbrev pub registered_first : Host → ℕ → ℕ → SigningAuthority → String → ℕ → Producer
registered_first host now producer producer_authority url location = record {
  owner = producer;
  total_votes = 0;
  producer_key = only_key host producer_authority.keys;
  is_active = true;
  url = url;
  unpaid_blocks = 0;
  location = location;
  last_claim_time = now;
  producer_authority = some producer_authority;
}

abbrev pub deactivate : Host → Producer → Producer
deactivate host row = record row {
  producer_key = host.no_key;
  producer_authority = none;
  is_active = false;
}

abbrev pub get_producer_authority : Producer → SigningAuthority
get_producer_authority row =
    let single : SigningAuthority = record { threshold = 1; keys = (row.producer_key, 1) ∷ [] } in
    elim row.producer_authority [
      | none ↦ single
      | some authority ↦ if authority.threshold == 0 then single else authority
    ]

module _ ⦃mi : MultiIndex⦄ (host : Host) where
  unfoldable pub regproducer :
      Env → ℕ → SigningAuthority → String → ℕ → Table Producer → Result (Table Producer)
  regproducer e producer producer_authority url location producers = do
    check (ltb (size url) 512) "url too long"
    check (host.is_valid producer_authority) "invalid producer authority"
    elim (find producer producers) [
      | some row ↦ do
        check (self_or_owner e producer) "invalid producer authority"
        ok (
            store producer (registered_again host e.now producer_authority url location row)
              producers)
      | none ↦ do
        require_auth e e.self
        emplace producer (registered_first host e.now producer producer_authority url location)
            producers
    ]

  unfoldable pub unregprod : Env → ℕ → Table Producer → Result (Table Producer)
  unregprod e producer producers = do
    require_auth e producer
    row ← or_fail (find producer producers) (message "producer not found")
    ok (store producer (deactivate host row) producers)

  unfoldable pub rmvproducer : Env → ℕ → Table Producer → Result (Table Producer)
  rmvproducer e producer producers = do
    require_auth e e.self
    row ← or_fail (find producer producers) (message "producer not found")
    ok (store producer (deactivate host row) producers)
