-- ===== src/System/Producers/KeyReturn.antt =====
-- A finalizer key that is registered and deleted again
-- (contracts/eosio.system/src/actions/3.producers.cpp: regfinkey, delfinkey).
use twig_system_contracts.Prelude.{
  ℕ, Option, none, some, List, String, ◌+◌, ◌-◌, ◌%◌, ◌^◌, ◌<◌, ltb, ◌==◌, arith, ◌≡◌, refl, sym,
  ap, ◌∙◌, subst, not, ◌||◌, ==_self, Bool-cases, Option-cases, inl, inr, true, false,
  if◌then◌else◌,
}
use twig_system_contracts.Chain.{MultiIndex, Table, find, store, Env, ok, find-store, find-erase}
use twig_system_contracts.System.Producers.State.{FinKey, Finalizer, Host, Registry}
use twig_system_contracts.System.Producers.Keys.{
  by_fin_key, find_key, one_more, one_less, to_binary, regfinkey, delfinkey,
}
use twig_system_contracts.System.Producers.Ring.{count_of, find_key-find, find_key-none}
use twig_system_contracts.System.Producers.Removing.{find-one_less}
use twig_system_contracts.System.Producers.KeyCalls.{
  IsRing, new_key, with_key, without, regfinkey-ok,
}
use twig_system_contracts.System.Producers.KeyRing.{regfinkey-Keeps}
use twig_system_contracts.System.Producers.Room.{HasRoom}

module _ ⦃mi : MultiIndex⦄ (host : Host) where
  -- The key that has just been registered is the one that is found by its hash.
  found_again :
      (key : FinKey) (s : Registry)
      → IsRing host (with_key key s)
      → find_key host (by_fin_key host key) (store key.id key s.finkeys) ≡ some key
  found_again key s ring =
      let hash = by_fin_key host key in
      let keys = store key.id key s.finkeys in
      let mine : find key.id keys ≡ some key =
        find-store key.id key.id key s.finkeys ∙ ground arith in
      elim (Option-cases (find_key host hash keys)) [
        | inl missing ↦
            absurd (let no = find_key-none host hash key.id key keys missing mine in ground arith)
        | inr (row, there) ↦
            let (at, same) = find_key-find host hash row ring there in
            let e = ring.distinct row.id key.id row key at mine same in
            there ∙ sym at ∙ ap (λ k. find k keys) e ∙ mine
      ]

  one_less_than_more :
      (key : FinKey) (old : Option Finalizer)
      → count_of old + 1 < 2 ^ 32
      → ((f : Finalizer) → old ≡ some f → 0 < f.finalizer_key_count)
      → (if (one_more key old).finalizer_key_count == 1
          then none
          else some (record (one_more key old) {
            finalizer_key_count = (one_more key old).finalizer_key_count - 1;
          }))
        ≡ old
  one_less_than_more key none room some_left = refl
  one_less_than_more key (some f) room some_left =
      let left = some_left f refl in
      let back : (f.finalizer_key_count + 1) % 2 ^ 32 - 1 ≡ f.finalizer_key_count = omega arith in
      let many : ((f.finalizer_key_count + 1) % 2 ^ 32 == 1) ≡ false = ground arith in
      rw many (ap (λ c. some (record f { finalizer_key_count = c })) back)

  -- Taking one key from a finalizer that has just been given one.
  more_less :
      (key : FinKey) (finalizers : Table Finalizer) (n : ℕ)
      → count_of (find key.finalizer_name finalizers) + 1 < 2 ^ 32
      → ((f : Finalizer) → find key.finalizer_name finalizers ≡ some f → 0 < f.finalizer_key_count)
      → find n (
          one_less key.finalizer_name (one_more key (find key.finalizer_name finalizers)) (
            store key.finalizer_name
              (one_more key (find key.finalizer_name finalizers))
              finalizers))
        ≡ find n finalizers
  more_less key finalizers n room some_left =
      let name = key.finalizer_name in
      let more = one_more key (find name finalizers) in
      rw (find-one_less n name more (store name more finalizers), find-store n name more finalizers)
        (elim (Bool-cases (n == name)) [
          | inl here ↦
              let same : name ≡ n = ground arith in
              rw here (
                one_less_than_more key (find name finalizers) room some_left
                ∙ ap (λ i. find i finalizers) same)
          | inr other ↦ rw other refl
        ])

  free_to_go :
      (key : FinKey) (old : Option Finalizer)
      → ((f : Finalizer) → old ≡ some f → (key.id == f.active_key_id) ≡ false)
      → (not (key.id == (one_more key old).active_key_id)
          || (one_more key old).finalizer_key_count == 1)
        ≡ true
  free_to_go key none apart = ground arith
  free_to_go key (some f) apart = rw (apart f refl) refl

  taken_apart :
      {V : Type 0} {v : V} (j k : ℕ) (t : Table V)
      → find j t ≡ none
      → find k t ≡ some v
      → (j == k) ≡ false
  taken_apart j k t missing there = elim (Bool-cases (j == k)) [
    | inl same ↦
        absurd (let e : j ≡ k = ground arith in let g = ap (λ i. find i t) e in ground arith)
    | inr apart ↦ apart
  ]

  -- The conditions under which a key is deleted.
  delfinkey-goes :
      (e : Env) (name : ℕ) (text : String) (bytes : List ℕ) (key : FinKey) (f : Finalizer)
      (s : Registry)
      → e.has_auth name ≡ true
      → find name s.finalizers ≡ some f
      → 0 < f.finalizer_key_count
      → to_binary host text ≡ ok bytes
      → find_key host (host.sha256 bytes) s.finkeys ≡ some key
      → key.finalizer_name ≡ name
      → (not (key.id == f.active_key_id) || f.finalizer_key_count == 1) ≡ true
      → delfinkey host e name text s ≡ ok (without key f s name)
  unfolding delfinkey
  delfinkey-goes e name text bytes key f s signed has some_left read there mine free =
      let alive : ltb 0 f.finalizer_key_count ≡ true = ground arith in
      let own : (key.finalizer_name == name) ≡ true = ground arith in
      rw (signed, has, alive, read, there, own, free) refl

  -- A key that has just been registered can be deleted again by its finalizer, if the registers
  -- agreed and no id or count wraps round, and then every key and every finalizer is as it was
  -- before: only the last id that was given out has moved on.
  pub regfinkey-delfinkey :
      (e : Env) (name : ℕ) (text proof : String) (s s' : Registry)
      → HasRoom 1 s.finkeyidgen s.finalizers
      → IsRing host s
      → regfinkey host e name text proof s ≡ ok s'
      → (s'' : Registry) × (delfinkey host e name text s' ≡ ok s'')
        × ((k : ℕ) → find k s''.finkeys ≡ find k s.finkeys)
        × ((n : ℕ) → find n s''.finalizers ≡ find n s.finalizers)
  regfinkey-delfinkey e name text proof s s' room ring h =
      let (bytes, read, new, fresh, signed, same) = regfinkey-ok host e name text proof s s' h in
      let (ring', _) = regfinkey-Keeps host e name text proof s s' room ring h in
      let key = new_key name text bytes s in
      let t = with_key key s in
      let more = one_more key (find name s.finalizers) in
      let agrees : IsRing host t = subst (IsRing host) (sym same) ring' in
      let has : find name t.finalizers ≡ some more =
        find-store name name more s.finalizers ∙ rw (==_self name) refl in
      (
        without key more t name,
        ap (delfinkey host e name text) (sym same)
            ∙ delfinkey-goes e name text bytes key more t signed has
                (agrees.registered name more has).1 read (found_again key s agrees) refl
                (free_to_go key (find name s.finalizers) (λ f there.
                  let (_, at, _, _) = ring.active name f there in
                  taken_apart key.id f.active_key_id s.finkeys fresh at)),
        λ k. ground (arith, find-erase k key.id t.finkeys, find-store k key.id key s.finkeys),
        λ n.
            more_less key s.finalizers n (room.keys name)
              (λ f there. (ring.registered name f there).1),
      )
