-- ===== src/System/Producers/Elections.antt =====
-- The election of producers and the switch to Savanna
-- (contracts/eosio.system/src/functions/functions.producers.cpp: update_elected_producers;
-- contracts/eosio.system/src/actions/3.producers.cpp: switchtosvnn).
use twig_system_contracts.Prelude.{
  ℕ, zero, suc, Bool, not, Option, none, some, List, [], ◌∷◌, ◌%◌, ◌^◌, ltb, ◌==◌, ◌&&◌, ◌||◌,
  length, map, sort_by, if◌then◌else◌,
}
use twig_system_contracts.Chain.{
  MultiIndex, Table, find, rows, NameLib, Env, require_auth, Result, ok, no_singleton, ◌>>=◌, ◌>>◌,
  check, or_fail, is_some,
}
use twig_system_contracts.System.Producers.State.{
  Producer, Finalizer, FinalizerAuthInfo, ProducerAuthority, Global, Host, Registry, positive,
  by_votes, double_place, auth_info,
}
use twig_system_contracts.System.Producers.Registration.{get_producer_authority}
use twig_system_contracts.System.Producers.Policy.{
  is_empty, is_savanna_consensus, set_proposed_finalizers,
}

-- The finalizer of a producer, unless it has no active key.
abbrev pub keyed_finalizer : ⦃mi : MultiIndex⦄ → ℕ → Table Finalizer → Option Finalizer
keyed_finalizer owner finalizers = elim (find owner finalizers) [
  | none ↦ none
  | some finalizer ↦ if is_empty finalizer.active_key_binary then none else some finalizer
]

abbrev pub candidate_authority : Producer → ProducerAuthority
candidate_authority row = record {
  producer_name = row.owner;
  authority = get_producer_authority row;
}

-- The producer that comes next may be taken: else the loop ends.
abbrev pub electable : Producer → Bool
electable row = positive row.total_votes && row.is_active

module _ ⦃mi : MultiIndex⦄ where
  -- The index `prototalvote`.
  unfoldable pub prototalvote : Table Producer → List Producer
  unfolding sort_by
  prototalvote producers =
      sort_by (λ row. double_place (by_votes row)) (map (λ r. r.1) (rows producers))

  -- The loop of the election, which takes no more than `room` producers.
  unfoldable pub top_of : Table Finalizer → ℕ → List Producer → List (Producer × Finalizer)
  top_of finalizers zero index = []
  top_of finalizers (suc room) [] = []
  top_of finalizers (suc room) (row ∷ index) =
      let passed = top_of finalizers (suc room) index in
      let taken = top_of finalizers room index in
      if electable row
      then elim (keyed_finalizer row.owner finalizers) [
        | none ↦ passed
        | some finalizer ↦ (row, finalizer) ∷ taken
      ]
      else []

module _ ⦃mi : MultiIndex⦄ ⦃names : NameLib⦄ (host : Host) where
  -- The finalizers of those that are taken.
  abbrev pub proposed_of : List (Producer × Finalizer) → List FinalizerAuthInfo
  proposed_of top = map (λ t. auth_info t.1) top

  abbrev pub schedule_of : List (Producer × Finalizer) → List ProducerAuthority
  schedule_of top = sort_by (λ a. a.producer_name) (map (λ t. candidate_authority t.0) top)

  abbrev pub elected : ℕ → Global → List (Producer × Finalizer) → Registry → Registry
  elected block_time global top s = record s {
    global = some (record {
      last_producer_schedule_update = block_time;
      last_producer_schedule_size =
          if is_some (host.set_proposed_producers (schedule_of top))
          then length top % 2 ^ 16
          else global.last_producer_schedule_size;
    });
  }

  unfoldable pub update_elected_producers : ℕ → Registry → Result Registry
  unfolding prototalvote top_of set_proposed_finalizers sort_by
  update_elected_producers block_time s = do
    global ← or_fail s.global no_singleton
    let top = top_of s.finalizers 21 (prototalvote s.producers)
    (if length top == 0 || ltb (length top) global.last_producer_schedule_size
        then ok s
        else set_proposed_finalizers host (proposed_of top) (elected block_time global top s))

  unfoldable pub switchtosvnn : Env → Registry → Result Registry
  unfolding prototalvote top_of set_proposed_finalizers is_savanna_consensus
  switchtosvnn e s = do
    require_auth e e.self
    global ← or_fail s.global no_singleton
    check (not (is_savanna_consensus host s)) "switchtosvnn can be run only once"
    let top = top_of s.finalizers global.last_producer_schedule_size (prototalvote s.producers)
    check (length top == global.last_producer_schedule_size)
        "not enough top producers have registered finalizer keys, has "
    s' ← set_proposed_finalizers host (proposed_of top) s
    check (is_savanna_consensus host s') "switching to Savanna failed"
    ok s'
