-- ===== src/System/Producers/Elected.antt =====
-- Who is elected (contracts/eosio.system/src/functions/functions.producers.cpp:
-- update_elected_producers; contracts/eosio.system/src/actions/3.producers.cpp: switchtosvnn).
use twig_system_contracts.Prelude.{
  ℕ, Bool, some, count, count-sort_by, ◌%◌, ◌^◌, List, [], ◌∷◌, ◌≤◌, ◌<◌, ltb, ◌==◌, ◌||◌, length,
  map, SortedFrom, sort_by-SortedFrom, if◌then◌else◌, arith, ◌≡◌, refl, subst, true, false, if_true,
  if_false,
}
use twig_system_contracts.Chain.{
  MultiIndex, NameLib, ok, no_singleton, or_fail, >>=-eq-ok, ok-injective, is_some,
}
use twig_system_contracts.System.Producers.State.{
  Producer, Finalizer, ProducerAuthority, Global, Host, Registry,
}
use twig_system_contracts.System.Producers.Policy.{set_proposed_finalizers}
use twig_system_contracts.System.Producers.Elections.{
  prototalvote, top_of, candidate_authority, proposed_of, schedule_of, elected,
  update_elected_producers,
}
use twig_system_contracts.System.Producers.Taking.{IsTop, top_of-IsTop}
use twig_system_contracts.System.Producers.Quorum.{
  AllVote, Proposes, set_proposed_finalizers-Proposes,
}

module _ ⦃mi : MultiIndex⦄ ⦃names : NameLib⦄ (host : Host) where
  proposed_of-AllVote : (top : List (Producer × Finalizer)) → AllVote (proposed_of host top)
  proposed_of-AllVote [] = tt
  proposed_of-AllVote (t ∷ top) = (refl, proposed_of-AllVote top)

  -- What the host is told, and the global row that the answer leaves: its time is the block's, and
  -- its size is that of the new schedule where the host takes it, else the old one.
  pub record IsScheduled (block_time : ℕ) (global : Global) (top : List (Producer × Finalizer))
      (s after : Registry) : Type 0 where
    pub schedule : List ProducerAuthority
    pub same_producers :
        (p : ProducerAuthority → Bool)
        → count p schedule ≡ count p (map (λ t. candidate_authority t.0) top)
    pub by_name : SortedFrom (λ a. a.producer_name) 0 schedule
    pub new_global : Global
    pub written : after ≡ record s { global = some new_global }
    pub at_time : new_global.last_producer_schedule_update ≡ block_time
    pub accepted :
        is_some (host.set_proposed_producers schedule) ≡ true
        → new_global.last_producer_schedule_size ≡ length top
    pub refused :
        is_some (host.set_proposed_producers schedule) ≡ false
        → new_global.last_producer_schedule_size ≡ global.last_producer_schedule_size

  -- What an election does with the producers that are taken, where it does anything.
  abbrev pub Proposed : ℕ → Global → Registry → Registry → List (Producer × Finalizer) → Type 0
  Proposed block_time global s s' top =
      (after : Registry) × IsScheduled block_time global top s after
      × Proposes host (proposed_of host top) after s'

  -- Who is taken, and what follows in each case.
  pub record Elects (block_time : ℕ) (global : Global) (s s' : Registry) : Type 0 where
    pub top : List (Producer × Finalizer)
    pub is_top : IsTop s.finalizers s.producers 21 top
    pub unchanged : length top ≡ 0 → s ≡ s'
    pub not_shorter : length top < global.last_producer_schedule_size → s ≡ s'
    pub proposed :
        0 < length top
        → global.last_producer_schedule_size ≤ length top
        → Proposed block_time global s s' top

  elected-IsScheduled :
      (block_time : ℕ) (global : Global) (s : Registry) (top : List (Producer × Finalizer))
      → length top ≤ 21
      → IsScheduled block_time global top s (elected host block_time global top s)
  elected-IsScheduled block_time global s top few = record {
    schedule = schedule_of host top;
    same_producers =
        λ p. count-sort_by p (λ a. a.producer_name) (map (λ t. candidate_authority t.0) top);
    by_name = sort_by-SortedFrom (λ a. a.producer_name) (map (λ t. candidate_authority t.0) top);
    new_global = record {
      last_producer_schedule_update = block_time;
      last_producer_schedule_size =
          if is_some (host.set_proposed_producers (schedule_of host top))
          then length top % 2 ^ 16
          else global.last_producer_schedule_size;
    };
    written = refl;
    at_time = refl;
    accepted = λ h. rw h (omega arith);
    refused = λ h. rw h refl;
  }

  -- How the election ends with the producers that are taken.
  abbrev Ends : ℕ → Global → Registry → Registry → List (Producer × Finalizer) → Type 0
  Ends block_time global s s' top =
      (if length top == 0 || ltb (length top) global.last_producer_schedule_size
        then ok s
        else set_proposed_finalizers host (proposed_of host top)
            (elected host block_time global top s))
      ≡ ok s'

  went_on :
      (block_time : ℕ) (global : Global) (s s' : Registry) (top : List (Producer × Finalizer))
      → length top ≤ 21
      → Ends block_time global s s' top
      → (length top == 0 || ltb (length top) global.last_producer_schedule_size) ≡ false
      → Proposed block_time global s s' top
  went_on block_time global s s' top few h go = (
    elected host block_time global top s,
    elected-IsScheduled block_time global s top few,
    set_proposed_finalizers-Proposes host (proposed_of host top)
        (elected host block_time global top s) s' (proposed_of-AllVote top) (if_false _ _ go h),
  )

  stopped :
      (block_time : ℕ) (global : Global) (s s' : Registry) (top : List (Producer × Finalizer))
      → Ends block_time global s s' top
      → (length top == 0 || ltb (length top) global.last_producer_schedule_size) ≡ true
      → s ≡ s'
  stopped block_time global s s' top h stop = ok-injective (if_true _ _ stop h)

  -- An election that goes through orders the rows of the producers by their votes and takes from the
  -- beginning those whose finalizer has an active key, at most 21, up to the first row that is
  -- not active or has no votes. It changes nothing where it takes nobody or fewer than are in the
  -- last schedule. Else it tells the host the schedule of exactly those producers, in the order of
  -- their names, writes the time, and the new size where the host takes the schedule, and proposes
  -- their finalizers, with one vote each, as `Proposes` describes.
  pub update_elected_producers-Elects :
      (block_time : ℕ) (global : Global) (s s' : Registry)
      → s.global ≡ some global
      → update_elected_producers host block_time s ≡ ok s'
      → Elects block_time global s s'
  unfolding update_elected_producers
  update_elected_producers-Elects block_time global s s' there h =
      let top = top_of s.finalizers 21 (prototalvote s.producers) in
      let best = top_of-IsTop s.finalizers s.producers 21 in
      let (g, found, h) = >>=-eq-ok (or_fail s.global no_singleton) _ h in
      let same : g ≡ global = ground arith in
      let ends : Ends block_time global s s' top = subst (λ g. Ends block_time g s s' top) same h in
      record {
        top = top;
        is_top = best;
        unchanged = λ none_taken. stopped block_time global s s' top ends (ground arith);
        not_shorter = λ shorter. stopped block_time global s s' top ends (ground arith);
        proposed = λ some_taken as_long.
            went_on block_time global s s' top best.is_taken.few ends (ground arith);
      }
