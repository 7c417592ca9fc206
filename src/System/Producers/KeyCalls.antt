-- ===== src/System/Producers/KeyCalls.antt =====
-- What the actions on finalizer keys do when they go through
-- (contracts/eosio.system/src/actions/3.producers.cpp: regfinkey, actfinkey, delfinkey).
use text.Mathlib.Text.{starts_with}
use twig_system_contracts.Prelude.{
  ℕ, none, some, List, String, ◌==◌, arith, ◌≡◌, sym, ap, ◌∙◌, subst, sort_by, if_true, if_false,
  Bool-cases, inl, inr, true,
}
use twig_system_contracts.Chain.{
  MultiIndex, Table, find, store, erase, emplace, emplace-ok, Env, require_auth, Result, ok, check,
  or_fail, is_some, is_none, >>=-eq-ok, ok-injective,
}
use twig_system_contracts.System.Producers.State.{
  FinKey, Finalizer, FinalizerAuthInfo, Host, Registry, anew, same_infos,
}
use twig_system_contracts.System.Producers.Policy.{
  policy_of, get_last_proposed_finalizers, set_proposed_finalizers,
}
use twig_system_contracts.System.Producers.Keys.{
  get_finalizer_key_hash, find_key, one_more, one_less, get_next_finalizer_key_id,
  get_finalizer_itr, own_key, to_binary, regfinkey, actfinkey, delfinkey,
}
use twig_system_contracts.System.Producers.Ring.{IsKeyRing, find_key-find}

-- The actions on keys, by the finalizer, the text of the key, and the proof of possession.
pub data KeyAct : Type 0 where
  register_key : ℕ → String → String → KeyAct
  activate_key : ℕ → String → KeyAct
  delete_key : ℕ → String → KeyAct

module _ ⦃mi : MultiIndex⦄ where
  -- The row that `regfinkey` writes.
  abbrev pub new_key : ℕ → String → List ℕ → Registry → FinKey
  new_key name text bytes s = record {
    id = (get_next_finalizer_key_id s.finkeyidgen).0;
    finalizer_name = name;
    finalizer_key = text;
    finalizer_key_binary = bytes;
  }

  -- The tables after a key is written.
  abbrev pub with_key : FinKey → Registry → Registry
  with_key key s = record s {
    finkeys = store key.id key s.finkeys;
    finkeyidgen = store 0 key.id s.finkeyidgen;
    finalizers =
        store key.finalizer_name (one_more key (find key.finalizer_name s.finalizers)) s.finalizers;
  }

  -- The tables after a key of a finalizer is erased.
  abbrev pub without : FinKey → Finalizer → Registry → ℕ → Registry
  without key f s name = record s {
    finalizers = one_less name f s.finalizers;
    finkeys = erase key.id s.finkeys;
  }

module _ ⦃mi : MultiIndex⦄ (host : Host) where
  abbrev pub run_key : Env → KeyAct → Registry → Result Registry
  run_key e (register_key name key proof) s = regfinkey host e name key proof (anew s)
  run_key e (activate_key name key) s = actfinkey host e name key (anew s)
  run_key e (delete_key name key) s = delfinkey host e name key (anew s)

  -- The registers agree.
  abbrev pub IsRing : Registry → Type 0
  IsRing s = IsKeyRing host s.finkeys s.finkeyidgen s.finalizers

  pub regfinkey-ok :
      (e : Env) (name : ℕ) (text proof : String) (s s' : Registry)
      → regfinkey host e name text proof s ≡ ok s'
      → (bytes : List ℕ) × (to_binary host text ≡ ok bytes)
        × (find_key host (host.sha256 bytes) s.finkeys ≡ none)
        × (find (new_key name text bytes s).id s.finkeys ≡ none)
        × (e.has_auth name ≡ true)
        × (with_key (new_key name text bytes s) s ≡ s')
  unfolding regfinkey get_next_finalizer_key_id find_key
  regfinkey-ok e name text proof s s' h =
      let (_, auth, h) = >>=-eq-ok (require_auth e name) _ h in
      let signed : e.has_auth name ≡ true = ground arith in
      let (_, _, h) = >>=-eq-ok (check (is_some (find name s.producers)) _) _ h in
      let (_, _, h) = >>=-eq-ok (check (starts_with proof "SIG_BLS") _) _ h in
      let (bytes, read, h) = >>=-eq-ok (to_binary host text) _ h in
      let (_, _, h) = >>=-eq-ok (host.decode_signature proof) _ h in
      let (_, new, h) =
        >>=-eq-ok (check (is_none (find_key host (host.sha256 bytes) s.finkeys)) _) _ h in
      let (_, _, h) = >>=-eq-ok (check (host.pop_verify bytes _) _) _ h in
      let key = new_key name text bytes s in
      let (finkeys, stored, h) = >>=-eq-ok (emplace key.id key s.finkeys) _ h in
      let (fresh, same) = emplace-ok key.id key s.finkeys finkeys stored in
      (
        bytes,
        read,
        ground arith,
        fresh,
        signed,
        ap (λ t. record (with_key key s) { finkeys = t }) same ∙ ok-injective h,
      )

  pub own_key-ok :
      {finkeyidgen : Table ℕ} {finalizers : Table Finalizer} (name : ℕ) (text why : String)
      (finkeys : Table FinKey) (key : FinKey)
      → IsKeyRing host finkeys finkeyidgen finalizers
      → own_key host name text why finkeys ≡ ok key
      → (key.finalizer_name ≡ name) × (find key.id finkeys ≡ some key)
  unfolding find_key
  own_key-ok name text why finkeys key ring h =
      let (hash, read, h) = >>=-eq-ok (get_finalizer_key_hash host text) _ h in
      let (row, at, h) = >>=-eq-ok (or_fail (find_key host hash finkeys) _) _ h in
      let found : find_key host hash finkeys ≡ some row = ground arith in
      let (_, mine, h) = >>=-eq-ok (check (row.finalizer_name == name) why) _ h in
      let same = ok-injective h in
      let there = find_key-find host hash row ring found in
      (
        ap (λ r. r.finalizer_name) (sym same) ∙ ground arith,
        subst (λ r. find r.id finkeys ≡ some r) same there.0,
      )

  pub get_finalizer_itr-ok :
      (name : ℕ) (finalizers : Table Finalizer) (f : Finalizer)
      → get_finalizer_itr name finalizers ≡ ok f
      → find name finalizers ≡ some f
  get_finalizer_itr-ok name finalizers f h = ground arith

  -- Setting the policy leaves the keys alone.
  abbrev pub SameKeys : Registry → Registry → Type 0
  SameKeys s s' =
      (s.finkeys ≡ s'.finkeys) × (s.finkeyidgen ≡ s'.finkeyidgen) × (s.finalizers ≡ s'.finalizers)

  pub set_proposed_finalizers-SameKeys :
      (proposed : List FinalizerAuthInfo) (s s' : Registry)
      → set_proposed_finalizers host proposed s ≡ ok s'
      → SameKeys s s'
  unfolding set_proposed_finalizers
  set_proposed_finalizers-SameKeys proposed s s' h =
      let sorted = sort_by (λ k. k.key_id) proposed in
      elim (Bool-cases (same_infos sorted (get_last_proposed_finalizers host s))) [
        | inl same ↦
            let e = ok-injective (if_true _ _ same h) in
            (ap (λ r. r.finkeys) e, ap (λ r. r.finkeyidgen) e, ap (λ r. r.finalizers) e)
        | inr other ↦
            let (_, _, h) =
              >>=-eq-ok (host.set_finalizers (policy_of sorted)) _ (if_false _ _ other h) in
            let e = ok-injective h in
            (ap (λ r. r.finkeys) e, ap (λ r. r.finkeyidgen) e, ap (λ r. r.finalizers) e)
      ]
