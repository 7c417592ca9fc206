-- ===== src/System/Producers/KeyRing.antt =====
-- The actions on finalizer keys keep the registers in agreement
-- (contracts/eosio.system/src/actions/3.producers.cpp: regfinkey, actfinkey, delfinkey).
use twig_system_contracts.Prelude.{
  ℕ, String, ◌+◌, ◌==◌, arith, ◌≡◌, refl, ap, ◌∙◌, subst, not, ◌||◌, if_true, if_false, Bool-cases,
  inl, inr,
}
use twig_system_contracts.Chain.{
  MultiIndex, Table, find, Env, require_auth, ok, check, >>=-eq-ok, ok-injective,
}
use twig_system_contracts.System.Producers.State.{FinKey, Finalizer, Host, Registry}
use twig_system_contracts.System.Producers.Policy.{get_last_proposed_finalizers}
use twig_system_contracts.System.Producers.Keys.{
  get_next_finalizer_key_id, get_finalizer_itr, own_key, activated, regfinkey, actfinkey, delfinkey,
  is_proposed, replace_first, proposed_anew,
}
use twig_system_contracts.System.Producers.Ring.{IsKeyRing}
use twig_system_contracts.System.Producers.Adding.{store-IsKeyRing}
use twig_system_contracts.System.Producers.Removing.{erase-IsKeyRing, activated-IsKeyRing}
use twig_system_contracts.System.Producers.Room.{
  HasRoom, added-HasRoom, activated-HasRoom, removed-HasRoom,
}
use twig_system_contracts.System.Producers.KeyCalls.{
  IsRing, new_key, without, regfinkey-ok, own_key-ok, get_finalizer_itr-ok, SameKeys,
  set_proposed_finalizers-SameKeys,
}

module _ ⦃mi : MultiIndex⦄ (host : Host) where
  -- What is kept, of the tables alone.
  abbrev Agree : Registry → Table FinKey → Table ℕ → Table Finalizer → Type 0
  Agree s keys gen fs =
      IsKeyRing host keys gen fs
      × ((n : ℕ) → HasRoom (n + 1) s.finkeyidgen s.finalizers → HasRoom n gen fs)

  -- The registers agree after an action, and there is room for one action less.
  abbrev pub Keeps : Registry → Registry → Type 0
  Keeps s s' = Agree s s'.finkeys s'.finkeyidgen s'.finalizers

  moved : (s t s' : Registry) → SameKeys host t s' → Keeps s t → Keeps s s'
  moved s t s' (a, b, c) kept =
      subst (λ keys. Agree s keys s'.finkeyidgen s'.finalizers) a
        (subst (λ gen. Agree s t.finkeys gen s'.finalizers) b
          (subst (λ fs. Agree s t.finkeys t.finkeyidgen fs) c kept))

  pub regfinkey-Keeps :
      (e : Env) (name : ℕ) (text proof : String) (s s' : Registry)
      → HasRoom 1 s.finkeyidgen s.finalizers
      → IsRing host s
      → regfinkey host e name text proof s ≡ ok s'
      → Keeps s s'
  unfolding get_next_finalizer_key_id
  regfinkey-Keeps e name text proof s s' room ring h =
      let (bytes, read, new, fresh, _, same) = regfinkey-ok host e name text proof s s' h in
      let key = new_key name text bytes s in
      let ids = room.ids in
      subst (Keeps s) same (
        store-IsKeyRing host key.id key ring refl new fresh (λ last there. ground arith)
            (room.keys name),
        λ n more. added-HasRoom n key.id key s.finkeyidgen s.finalizers (ground arith) more,
      )

  activated-Keeps :
      (name : ℕ) (f : Finalizer) (key : FinKey) (s s' : Registry)
      → Keeps s (activated host name key f s)
      → proposed_anew host f key (activated host name key f s) ≡ ok s'
      → Keeps s s'
  unfolding proposed_anew
  activated-Keeps name f key s s' now h =
      let t = activated host name key f s in
      let last = get_last_proposed_finalizers host t in
      elim (Bool-cases (is_proposed f.active_key_id last)) [
        | inl there ↦
            moved s t s'
              (set_proposed_finalizers-SameKeys host (replace_first f.active_key_id key last) t s'
                (if_true _ _ there h))
              now
        | inr absent ↦ subst (Keeps s) (ok-injective (if_false _ _ absent h)) now
      ]

  pub actfinkey-Keeps :
      (e : Env) (name : ℕ) (text : String) (s s' : Registry)
      → IsRing host s
      → actfinkey host e name text s ≡ ok s'
      → Keeps s s'
  unfolding actfinkey
  actfinkey-Keeps e name text s s' ring h =
      let why : String = "finalizer key was not registered by the finalizer" in
      let (_, _, h) = >>=-eq-ok (require_auth e name) _ h in
      let (f, read, h) = >>=-eq-ok (get_finalizer_itr name s.finalizers) _ h in
      let (key, mine, h) = >>=-eq-ok (own_key host name text why s.finkeys) _ h in
      let (_, _, h) = >>=-eq-ok (check (not (key.id == f.active_key_id)) _) _ h in
      let (is_his, there) = own_key-ok host name text _ s.finkeys key ring mine in
      let found = get_finalizer_itr-ok host name s.finalizers f read in
      let at = ap (λ n. find n s.finalizers) is_his ∙ found in
      let now : Keeps s (activated host name key f s) =
        subst (λ n. Keeps s (activated host n key f s)) is_his
          (
            activated-IsKeyRing host key f ring there at,
            λ n more. activated-HasRoom n key f s.finkeyidgen s.finalizers at more,
          ) in
      activated-Keeps name f key s s' now h

  pub delfinkey-Keeps :
      (e : Env) (name : ℕ) (text : String) (s s' : Registry)
      → IsRing host s
      → delfinkey host e name text s ≡ ok s'
      → Keeps s s'
  unfolding delfinkey
  delfinkey-Keeps e name text s s' ring h =
      let (_, _, h) = >>=-eq-ok (require_auth e name) _ h in
      let (f, read, h) = >>=-eq-ok (get_finalizer_itr name s.finalizers) _ h in
      let (key, mine, h) = >>=-eq-ok (own_key host name text "finalizer key " s.finkeys) _ h in
      let (_, last, h) =
        >>=-eq-ok (check (not (key.id == f.active_key_id) || f.finalizer_key_count == 1) _) _ h in
      let (is_his, there) = own_key-ok host name text _ s.finkeys key ring mine in
      let found = get_finalizer_itr-ok host name s.finalizers f read in
      let at = ap (λ n. find n s.finalizers) is_his ∙ found in
      subst (Keeps s) (ap (without key f s) is_his ∙ ok-injective h) (
        erase-IsKeyRing host key f ring there at (λ active. ground arith),
        λ n more. removed-HasRoom n key.finalizer_name f s.finkeyidgen s.finalizers at more,
      )
