-- ===== src/System/Producers/Unelected.antt =====
-- No action gives a producer a vote, and without votes nobody is elected
-- (contracts/eosio.system/src/actions/3.producers.cpp).
use twig_system_contracts.Prelude.{
  ℕ, zero, suc, not, some, List, [], ◌∷◌, ◌==◌, length, map, sort_by, insert_by, arith, ◌≡◌, refl,
  sym, ap, ◌∙◌, subst, Bool-cases, inl, inr, Option-cases, String, lookup, AscendingFrom,
  lookup_below, ◌≢◌,
}
use twig_system_contracts.Chain.{
  MultiIndex, Table, find, rows, store, find-store, find-rows, rows-IsAscending, NameLib, Env,
  require_auth, Result, ok, no_singleton, ◌>>=◌, check, or_fail, message, >>=-eq-ok,
}
use twig_system_contracts.System.Producers.State.{
  Producer, Finalizer, SigningAuthority, Global, Host, Registry, by_votes, double_place,
}
use twig_system_contracts.System.Producers.Registration.{
  registered_first, registered_again, regproducer, unregprod, rmvproducer, deactivate,
}
use twig_system_contracts.System.Producers.Policy.{is_savanna_consensus, set_proposed_finalizers}
use twig_system_contracts.System.Producers.Elections.{
  prototalvote, top_of, proposed_of, update_elected_producers, switchtosvnn,
}
use twig_system_contracts.System.Producers.Quorum.{nothing_proposed}

-- The actions on producers.
pub data ProducerAct : Type 0 where
  register : ℕ → SigningAuthority → String → ℕ → ProducerAct
  unregister : ℕ → ProducerAct
  remove_producer : ℕ → ProducerAct

module _ ⦃mi : MultiIndex⦄ where
  -- Every producer that is registered has no votes.
  abbrev pub IsUnvoted : Table Producer → Type 0
  IsUnvoted producers = (k : ℕ) (row : Producer) → find k producers ≡ some row → row.total_votes ≡ 0

module _ ⦃mi : MultiIndex⦄ (host : Host) where
  abbrev pub run_producer : Env → ProducerAct → Table Producer → Result (Table Producer)
  run_producer e (register producer authority url location) t =
      regproducer host e producer authority url location t
  run_producer e (unregister producer) t = unregprod host e producer t
  run_producer e (remove_producer producer) t = rmvproducer host e producer t

  stored :
      (k : ℕ) (row : Producer) (t t' : Table Producer)
      → row.total_votes ≡ 0
      → store k row t ≡ t'
      → IsUnvoted t
      → IsUnvoted t'
  stored k row t t' zero_votes same none_yet =
      subst IsUnvoted same (λ j found there. ground (arith, find-store j k row t, none_yet j found))

  regproducer-IsUnvoted :
      (e : Env) (producer : ℕ) (authority : SigningAuthority) (url : String) (location : ℕ)
      (t t' : Table Producer)
      → IsUnvoted t
      → regproducer host e producer authority url location t ≡ ok t'
      → IsUnvoted t'
  unfolding regproducer
  regproducer-IsUnvoted e producer authority url location t t' none_yet h =
      elim (Option-cases (find producer t)) [
        | inl new ↦
            let row = registered_first host e.now producer authority url location in
            stored producer row t t' refl (ground arith) none_yet
        | inr (old, there) ↦
            let row = registered_again host e.now authority url location old in
            stored producer row t t' (none_yet producer old there) (ground arith) none_yet
      ]

  deactivated-IsUnvoted :
      (producer : ℕ) (t t' : Table Producer)
      → IsUnvoted t
      → (or_fail (find producer t) (message "producer not found")
          >>= (λ row. ok (store producer (deactivate host row) t)))
        ≡ ok t'
      → IsUnvoted t'
  deactivated-IsUnvoted producer t t' none_yet h = elim (Option-cases (find producer t)) [
    | inl missing ↦ absurd (ground arith)
    | inr (old, there) ↦
        stored producer (deactivate host old) t t' (none_yet producer old there) (ground arith)
          none_yet
  ]

  -- However producers are registered, unregistered and removed, none of them has votes if none had
  -- any before.
  pub run_producer-IsUnvoted :
      (e : Env) (act : ProducerAct) (t t' : Table Producer)
      → IsUnvoted t
      → run_producer e act t ≡ ok t'
      → IsUnvoted t'
  unfolding unregprod rmvproducer
  run_producer-IsUnvoted e (ProducerAct.register producer authority url location) t t' none_yet h =
      regproducer-IsUnvoted e producer authority url location t t' none_yet h
  run_producer-IsUnvoted e (ProducerAct.unregister producer) t t' none_yet h =
      let (_, _, h) = >>=-eq-ok (require_auth e producer) _ h in
      deactivated-IsUnvoted producer t t' none_yet h
  run_producer-IsUnvoted e (ProducerAct.remove_producer producer) t t' none_yet h =
      let (_, _, h) = >>=-eq-ok (require_auth e e.self) _ h in
      deactivated-IsUnvoted producer t t' none_yet h

-- No row of a list has votes.
abbrev NoVotes : List Producer → Type 0
NoVotes [] = Unit
NoVotes (row ∷ index) = (row.total_votes ≡ 0) × NoVotes index

rows-NoVotes :
    (n : ℕ) (m : List (ℕ × Producer))
    → AscendingFrom n m
    → ((k : ℕ) (row : Producer) → lookup k m ≡ some row → row.total_votes ≡ 0)
    → NoVotes (map (λ r. r.1) m)
rows-NoVotes n [] up none_yet = tt
rows-NoVotes n (r ∷ m) up none_yet = (
  none_yet r.0 r.1 (ground arith),
  rows-NoVotes (suc r.0) m up.1 (λ k row there. none_yet k row (elim (Bool-cases (k == r.0)) [
    | inl same ↦ absurd (let g = lookup_below (suc r.0) k m up.1 (ground arith) in ground arith)
    | inr other ↦ rw other there
  ])),
)

insert_by-NoVotes :
    (key : Producer → ℕ) (row : Producer) (index : List Producer)
    → row.total_votes ≡ 0
    → NoVotes index
    → NoVotes (insert_by key row index)
insert_by-NoVotes key row [] zero_votes all = (zero_votes, tt)
insert_by-NoVotes key row (r ∷ index) zero_votes all =
    ground (arith, insert_by-NoVotes key row index zero_votes all.1)

sort_by-NoVotes :
    (key : Producer → ℕ) (index : List Producer) → NoVotes index → NoVotes (sort_by key index)
unfolding sort_by
sort_by-NoVotes key [] all = tt
sort_by-NoVotes key (row ∷ index) all =
    insert_by-NoVotes key row (sort_by key index) all.0 (sort_by-NoVotes key index all.1)

module _ ⦃mi : MultiIndex⦄ where
  top_of-NoVotes :
      (finalizers : Table Finalizer) (room : ℕ) (index : List Producer)
      → NoVotes index
      → top_of finalizers room index ≡ []
  unfolding top_of
  top_of-NoVotes finalizers zero index all = refl
  top_of-NoVotes finalizers (suc room) [] all = refl
  top_of-NoVotes finalizers (suc room) (row ∷ index) all = rw all.0 refl

  nobody_on_top :
      (finalizers : Table Finalizer) (room : ℕ) (producers : Table Producer)
      → IsUnvoted producers
      → top_of finalizers room (prototalvote producers) ≡ []
  unfolding prototalvote
  nobody_on_top finalizers room producers none_yet =
      let in_rows : (k : ℕ) (row : Producer)
          → lookup k (rows producers) ≡ some row
          → row.total_votes ≡ 0 =
        λ k row there. none_yet k row (find-rows k producers ∙ there) in
      top_of-NoVotes finalizers room (prototalvote producers) (
        sort_by-NoVotes (λ row. double_place (by_votes row)) (map (λ r. r.1) (rows producers))
          (rows-NoVotes 0 (rows producers) (rows-IsAscending producers) in_rows))

module _ ⦃mi : MultiIndex⦄ ⦃names : NameLib⦄ (host : Host) where
  -- Where no producer has votes, an election changes nothing: no schedule is proposed and no
  -- finalizer policy, and the time of the last update is not written either.
  pub update_elected_producers-IsUnvoted :
      (block_time : ℕ) (global : Global) (s : Registry)
      → IsUnvoted s.producers
      → s.global ≡ some global
      → update_elected_producers host block_time s ≡ ok s
  unfolding update_elected_producers
  update_elected_producers-IsUnvoted block_time global s none_yet there =
      rw (there, nobody_on_top s.finalizers 21 s.producers none_yet) refl

  -- Where no producer has votes, the switch to Savanna always fails.
  pub switchtosvnn-IsUnvoted :
      (e : Env) (s s' : Registry) → IsUnvoted s.producers → switchtosvnn host e s ≢ ok s'
  unfolding switchtosvnn
  switchtosvnn-IsUnvoted e s s' none_yet h =
      let (_, _, h) = >>=-eq-ok (require_auth e e.self) _ h in
      let (global, _, h) = >>=-eq-ok (or_fail s.global no_singleton) _ h in
      let (_, once, h) = >>=-eq-ok (check (not (is_savanna_consensus host s)) _) _ h in
      let size = global.last_producer_schedule_size in
      let top = top_of s.finalizers size (prototalvote s.producers) in
      let (_, _, h) = >>=-eq-ok (check (length top == size) _) _ h in
      let (t, set, h) = >>=-eq-ok (set_proposed_finalizers host (proposed_of host top) s) _ h in
      let (_, switched, _) = >>=-eq-ok (check (is_savanna_consensus host t) _) _ h in
      let nobody = nobody_on_top s.finalizers size s.producers none_yet in
      let idle =
        nothing_proposed host s t (ground arith)
          (ap (λ l. set_proposed_finalizers host (proposed_of host l) s) (sym nobody) ∙ set) in
      ground arith
