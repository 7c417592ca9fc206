-- ===== src/System/Producers/Quorum.antt =====
-- What is proposed as the finalizer policy, and the votes that it takes
-- (contracts/eosio.system/src/functions/functions.producers.cpp: set_proposed_finalizers).
use twig_system_contracts.Prelude.{
  ℕ, Bool, not, some, List, [], ◌∷◌, ◌+◌, ◌*◌, ◌≤◌, ◌<◌, ◌==◌, ◌||◌, length, map, sort_by,
  insert_by, SortedFrom, sort_by-SortedFrom, count, count-sort_by, arith, ◌≡◌, refl, sym, ap, ◌∙◌,
  true, false, Bool-cases, inl, inr, ◌⊎◌, if_true, if_false, ==_self,
}
use twig_system_contracts.Chain.{MultiIndex, find, find-store, ok, >>=-eq-ok, ok-injective}
use twig_system_contracts.System.Producers.State.{
  FinalizerAuthority, FinalizerPolicy, FinalizerAuthInfo, Host, Registry, same_infos, same_bytes,
}
use twig_system_contracts.System.Producers.Policy.{
  policy_of, is_empty, is_savanna_consensus, filled, get_last_proposed_finalizers,
  set_proposed_finalizers,
}
use twig_system_contracts.System.Producers.Keys.{is_proposed}

abbrev pub total_weight : List FinalizerAuthority → ℕ
total_weight [] = 0
total_weight (f ∷ fs) = f.weight + total_weight fs

-- Each entry has one vote, as the constructor from a row gives it.
abbrev pub HasOneVote : FinalizerAuthInfo → Type 0
HasOneVote k = k.fin_authority.weight ≡ 1

abbrev pub AllVote : List FinalizerAuthInfo → Type 0
AllVote [] = Unit
AllVote (k ∷ ks) = HasOneVote k × AllVote ks

abbrev by_id : FinalizerAuthInfo → ℕ
by_id k = k.key_id

insert_by-AllVote :
    (k : FinalizerAuthInfo) (ks : List FinalizerAuthInfo)
    → HasOneVote k
    → AllVote ks
    → AllVote (insert_by by_id k ks)
insert_by-AllVote k [] one all = (one, tt)
insert_by-AllVote k (j ∷ ks) one all = ground (arith, insert_by-AllVote k ks one all.1)

sort_by-AllVote : (ks : List FinalizerAuthInfo) → AllVote ks → AllVote (sort_by by_id ks)
unfolding sort_by
sort_by-AllVote [] all = tt
sort_by-AllVote (k ∷ ks) all =
    insert_by-AllVote k (sort_by by_id ks) all.0 (sort_by-AllVote ks all.1)

total_weight-length :
    (ks : List FinalizerAuthInfo)
    → AllVote ks
    → (total_weight (map (λ k. k.fin_authority) ks) ≡ length ks)
      × (length (map (λ k. k.fin_authority) ks) ≡ length ks)
total_weight-length [] all = (refl, refl)
total_weight-length (k ∷ ks) all =
    let (a, b) = total_weight-length ks all.1 in (omega arith, omega arith)

same_bytes_self : (xs : List ℕ) → same_bytes xs xs ≡ true
same_bytes_self [] = refl
same_bytes_self (x ∷ xs) = rw (==_self x, same_bytes_self xs) refl

same_infos_self : (ks : List FinalizerAuthInfo) → same_infos ks ks ≡ true
same_infos_self [] = refl
same_infos_self (k ∷ ks) =
    rw (==_self k.key_id, same_bytes_self k.fin_authority.public_key, same_infos_self ks) refl

same_empty : (ks : List FinalizerAuthInfo) → is_empty ks ≡ true → same_infos [] ks ≡ true
same_empty [] h = refl
same_empty (k ∷ ks) h = h

-- A policy takes more than two thirds of the votes, and all of them are enough.
pub record IsQuorum (policy : FinalizerPolicy) : Type 0 where
  pub above : 2 * total_weight policy.finalizers < 3 * policy.threshold
  pub reached : 0 < length policy.finalizers → policy.threshold ≤ total_weight policy.finalizers

-- What is on record after a proposal, and what the host is told.
pub record Proposes ⦃mi : MultiIndex⦄ (host : Host) (proposed : List FinalizerAuthInfo)
    (s s' : Registry) : Type 0 where
  pub sorted : List FinalizerAuthInfo
  pub in_order : SortedFrom by_id 0 sorted
  pub permuted : (p : FinalizerAuthInfo → Bool) → count p sorted ≡ count p proposed
  pub on_record : same_infos sorted (get_last_proposed_finalizers host s') ≡ true
  pub quorum : IsQuorum (policy_of sorted)
  pub told :
      ((same_infos sorted (get_last_proposed_finalizers host s) ≡ true)
        × (s'.policies ≡ s.policies))
      ⊎ ((same_infos sorted (get_last_proposed_finalizers host s) ≡ false)
          × (s'.policies ≡ policy_of sorted ∷ s.policies)
          × (host.set_finalizers (policy_of sorted) ≡ ok tt)
          × (find 0 s'.lastpropfins ≡ some sorted)
          × (s'.cached ≡ some sorted))

policy_of-IsQuorum : (ks : List FinalizerAuthInfo) → AllVote ks → IsQuorum (policy_of ks)
policy_of-IsQuorum ks all =
    let (votes, size) = total_weight-length ks all in
    record { above = rw (votes, size) (omega arith); reached = λ some_vote. omega arith }

module _ ⦃mi : MultiIndex⦄ (host : Host) where
  -- Filling the cache does not change what is read from it.
  pub last_filled :
      (s : Registry)
      → get_last_proposed_finalizers host (record s { cached = filled host s })
        ≡ get_last_proposed_finalizers host s
  unfolding get_last_proposed_finalizers
  last_filled s = ground arith

  last_set :
      (list : List FinalizerAuthInfo) (s : Registry)
      → s.cached ≡ some list
      → get_last_proposed_finalizers host s ≡ list
  unfolding get_last_proposed_finalizers
  last_set list s h = rw h refl

  -- An empty proposal changes nothing where none stands.
  pub nothing_proposed :
      (s s' : Registry)
      → is_savanna_consensus host s ≡ false
      → set_proposed_finalizers host [] s ≡ ok s'
      → is_savanna_consensus host s' ≡ false
  unfolding set_proposed_finalizers sort_by is_savanna_consensus
  nothing_proposed s s' idle h =
      let last = get_last_proposed_finalizers host s in
      let same : same_infos [] last ≡ true = same_empty last (ground arith) in
      let e = ok-injective (if_true _ _ same h) in
      ap (λ l. not (is_empty l)) (ap (get_last_proposed_finalizers host) (sym e) ∙ last_filled s)
      ∙ idle

  -- A proposal that goes through leaves on record the proposed finalizers in the order of their key
  -- ids, up to what `==` compares, if each has one vote. The host is told exactly if that is a
  -- change, and then of a policy that takes more than two thirds of all votes and no more votes
  -- than there are, unless there are none; the table and the cache then hold the same list.
  pub set_proposed_finalizers-Proposes :
      (proposed : List FinalizerAuthInfo) (s s' : Registry)
      → AllVote proposed
      → set_proposed_finalizers host proposed s ≡ ok s'
      → Proposes host proposed s s'
  unfolding set_proposed_finalizers
  set_proposed_finalizers-Proposes proposed s s' all h =
      let list = sort_by by_id proposed in
      let ordered = sort_by-SortedFrom by_id proposed in
      let perm : (p : FinalizerAuthInfo → Bool) → count p list ≡ count p proposed =
        λ p. count-sort_by p by_id proposed in
      let votes = policy_of-IsQuorum list (sort_by-AllVote proposed all) in
      elim (Bool-cases (same_infos list (get_last_proposed_finalizers host s))) [
        | inl same ↦
            let e = ok-injective (if_true _ _ same h) in
            record {
              sorted = list;
              in_order = ordered;
              permuted = perm;
              on_record =
                  ap (same_infos list)
                    (ap (get_last_proposed_finalizers host) (sym e) ∙ last_filled s)
                  ∙ same;
              quorum = votes;
              told = inl (same, ap (λ r. r.policies) (sym e));
            }
        | inr other ↦
            let (_, accepted, h) =
              >>=-eq-ok (host.set_finalizers (policy_of list)) _ (if_false _ _ other h) in
            let e = ok-injective h in
            record {
              sorted = list;
              in_order = ordered;
              permuted = perm;
              on_record =
                  ap (same_infos list) (last_set list s' (ap (λ r. r.cached) (sym e)))
                  ∙ same_infos_self list;
              quorum = votes;
              told = inr (
                other,
                ap (λ r. r.policies) (sym e),
                accepted,
                ap (λ r. find 0 r.lastpropfins) (sym e) ∙ find-store 0 0 list s.lastpropfins,
                ap (λ r. r.cached) (sym e),
              );
            }
      ]

-- Whether an id is in a list.
abbrev pub has_id : ℕ → List FinalizerAuthInfo → Bool
has_id id [] = false
has_id id (k ∷ ks) = k.key_id == id || has_id id ks

has_id_below :
    (n id : ℕ) (ks : List FinalizerAuthInfo) → SortedFrom by_id n ks → id < n → has_id id ks ≡ false
has_id_below n id [] up h = refl
has_id_below n id (k ∷ ks) up h = ground (arith, has_id_below k.key_id id ks up.1)

is_proposed-from :
    (n id : ℕ) (ks : List FinalizerAuthInfo)
    → SortedFrom by_id n ks
    → is_proposed id ks ≡ has_id id ks
is_proposed-from n id [] up = refl
is_proposed-from n id (k ∷ ks) up =
    ground (arith, is_proposed-from k.key_id id ks up.1, has_id_below k.key_id id ks up.1)

-- On finalizers in the order of their key ids, as every proposal leaves them, the search of
-- `actfinkey` for an id, which stops at the first one that is not below it, finds it exactly if
-- it is anywhere in the list.
is_proposed-has_id :
    (id : ℕ) (ks : List FinalizerAuthInfo)
    → SortedFrom by_id 0 ks
    → is_proposed id ks ≡ has_id id ks
is_proposed-has_id id ks up = is_proposed-from 0 id ks up
