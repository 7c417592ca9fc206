-- ===== src/System/Producers/Removing.antt =====
-- A key that is made active, and one that is removed, keep the registers in agreement (actfinkey,
-- delfinkey).
use twig_system_contracts.Prelude.{
  ℕ, none, some, ◌+◌, ◌-◌, ◌<◌, ◌==◌, if◌then◌else◌, ℤ, pos, ◌+ℤ◌, int_laws, pos_part, neg_part,
  arith, ◌≡◌, refl, sym, ap, ◌∙◌, true, false, Bool-cases, inl, inr,
}
use twig_system_contracts.Chain.{
  MultiIndex, Table, find, store, erase, find-store, find-erase, sum, sum-erase, weight_of,
}
use twig_system_contracts.System.Producers.State.{FinKey, Finalizer, Host}
use twig_system_contracts.System.Producers.Keys.{one_less}
use twig_system_contracts.System.Producers.Ring.{owned, count_of, IsKeyRing}

module _ ⦃mi : MultiIndex⦄ where
  pub find-one_less :
      (n name : ℕ) (f : Finalizer) (finalizers : Table Finalizer)
      → find n (one_less name f finalizers) ≡ (
          if n == name
          then (if f.finalizer_key_count == 1
              then none
              else some (record f { finalizer_key_count = f.finalizer_key_count - 1 }))
          else find n finalizers)
  find-one_less n name f finalizers =
      let fewer : Finalizer = record f { finalizer_key_count = f.finalizer_key_count - 1 } in
      ground (arith, find-store n name fewer finalizers, find-erase n name finalizers)

module _ ⦃mi : MultiIndex⦄ (host : Host) where
  step_down : {x y w : ℤ} {c d : ℕ} → x +ℤ w ≡ y → y ≡ pos (c + d) → w ≡ pos d → x ≡ pos c
  step_down a b g = omega (
    int_laws,
    ap pos_part a,
    ap neg_part a,
    ap pos_part b,
    ap neg_part b,
    ap pos_part g,
    ap neg_part g,
  )

  erased-counts :
      (key : FinKey) (f : Finalizer) (finkeys : Table FinKey) (finalizers : Table Finalizer) (n : ℕ)
      → find key.id finkeys ≡ some key
      → find key.finalizer_name finalizers ≡ some f
      → 0 < f.finalizer_key_count
      → sum (owned n) finkeys ≡ pos (count_of (find n finalizers))
      → sum (owned n) (erase key.id finkeys)
        ≡ pos (count_of (find n (one_less key.finalizer_name f finalizers)))
  erased-counts key f finkeys finalizers n there mine some_left c =
      let name = key.finalizer_name in
      let l =
        ap (λ o. sum (owned n) (erase key.id finkeys) +ℤ weight_of (owned n) o) (sym there)
        ∙ sum-erase (owned n) key.id finkeys in
      rw (find-one_less n name f finalizers) (elim (Bool-cases (name == n)) [
        | inl here ↦
            let same : name ≡ n = ground arith in
            let one : owned n key ≡ pos 1 = rw here refl in
            let back : (n == name) ≡ true = ground arith in
            let c' : sum (owned n) finkeys ≡ pos f.finalizer_key_count =
              c
              ∙ ap (λ i. pos (count_of (find i finalizers))) (sym same)
              ∙ ap (λ o. pos (count_of o)) mine in
            rw back (elim (Bool-cases (f.finalizer_key_count == 1)) [
              | inl last ↦
                  let e : f.finalizer_key_count ≡ 0 + 1 = ground arith in
                  rw last (step_down l (c' ∙ ap pos e) one)
              | inr more ↦
                  let e : f.finalizer_key_count ≡ (f.finalizer_key_count - 1) + 1 = omega arith in
                  rw more (step_down l (c' ∙ ap pos e) one)
            ])
        | inr other ↦
            let none_of : owned n key ≡ pos 0 = rw other refl in
            let back : (n == name) ≡ false = ground arith in
            let e : count_of (find n finalizers) ≡ count_of (find n finalizers) + 0 = omega arith in
            rw back (step_down l (c ∙ ap pos e) none_of)
      ])

  one_less-active :
      (n name : ℕ) (f g : Finalizer) (finalizers : Table Finalizer)
      → (n == name) ≡ true
      → find n (one_less name f finalizers) ≡ some g
      → ((f.finalizer_key_count == 1) ≡ false)
        × (record f { finalizer_key_count = f.finalizer_key_count - 1 } ≡ g)
  one_less-active n name f g finalizers here h =
      let at = find-one_less n name f finalizers in ground arith

  -- A row that was there stays when another is erased.
  outlives :
      {V : Type 0} (j k : ℕ) (w : V) (t : Table V)
      → (j == k) ≡ false
      → find j t ≡ some w
      → find j (erase k t) ≡ some w
  outlives j k w t apart there = find-erase j k t ∙ ground arith

  -- A key that is not the active one, or the last one of its finalizer.
  pub erase-IsKeyRing :
      {finkeys : Table FinKey} {finkeyidgen : Table ℕ} {finalizers : Table Finalizer} (key : FinKey)
      (f : Finalizer)
      → IsKeyRing host finkeys finkeyidgen finalizers
      → find key.id finkeys ≡ some key
      → find key.finalizer_name finalizers ≡ some f
      → (key.id ≡ f.active_key_id → f.finalizer_key_count ≡ 1)
      → IsKeyRing host (erase key.id finkeys) finkeyidgen (one_less key.finalizer_name f finalizers)
  erase-IsKeyRing {finkeys} {finkeyidgen} {finalizers} key f ring there mine last =
      let name = key.finalizer_name in
      let (owner, some_left) = ring.registered name f mine in
      let left : (k : ℕ) (row : FinKey)
          → find k (erase key.id finkeys) ≡ some row
          → find k finkeys ≡ some row =
        λ k row h. ground (arith, find-erase k key.id finkeys) in
      record {
        keyed = λ k row h. ring.keyed k row (left k row h);
        given = λ k row h. ring.given k row (left k row h);
        distinct = λ j k a b h i. ring.distinct j k a b (left j a h) (left k b i);
        counts = λ n. erased-counts key f finkeys finalizers n there mine some_left (ring.counts n);
        registered = λ n g h.
            let at = find-one_less n name f finalizers in
            ground (arith, ring.registered n g, owner, some_left);
        active = λ n g h. elim (Bool-cases (n == name)) [
          | inl here ↦
              let same : n ≡ name = ground arith in
              let (left_one, kept) = one_less-active n name f g finalizers here h in
              let (row, at, his, bytes) = ring.active name f mine in
              let apart : (f.active_key_id == key.id) ≡ false =
                elim (Bool-cases (f.active_key_id == key.id)) [
                  | inl active ↦ absurd (let e = last (ground arith) in ground arith)
                  | inr idle ↦ idle
                ] in
              (
                row,
                outlives g.active_key_id key.id row finkeys (ground (arith, kept))
                    (ground (arith, kept)),
                his ∙ sym same,
                ground (arith, kept),
              )
          | inr other ↦
              let (row, at, his, bytes) =
                ring.active n g (ground (arith, find-one_less n name f finalizers)) in
              (
                row,
                outlives g.active_key_id key.id row finkeys
                    (elim (Bool-cases (g.active_key_id == key.id)) [
                      | inl same ↦ absurd (
                          let e : g.active_key_id ≡ key.id = ground arith in
                          let k = sym at ∙ ap (λ i. find i finkeys) e ∙ there in ground arith)
                      | inr apart ↦ apart
                    ])
                    at,
                his,
                bytes,
              )
        ];
      }

  -- A finalizer that takes another of its keys for the active one.
  pub activated-IsKeyRing :
      {finkeys : Table FinKey} {finkeyidgen : Table ℕ} {finalizers : Table Finalizer} (key : FinKey)
      (f : Finalizer)
      → IsKeyRing host finkeys finkeyidgen finalizers
      → find key.id finkeys ≡ some key
      → find key.finalizer_name finalizers ≡ some f
      → IsKeyRing host finkeys finkeyidgen (
          store key.finalizer_name
            (record f { active_key_id = key.id; active_key_binary = key.finalizer_key_binary })
            finalizers)
  activated-IsKeyRing {finkeys} {finkeyidgen} {finalizers} key f ring there mine =
      let name = key.finalizer_name in
      let new : Finalizer = record f {
        active_key_id = key.id;
        active_key_binary = key.finalizer_key_binary;
      } in
      let (owner, some_left) = ring.registered name f mine in
      record {
        keyed = ring.keyed;
        given = ring.given;
        distinct = ring.distinct;
        counts = λ n.
            let c = ring.counts n in
            c
            ∙ ap pos (elim (Bool-cases (n == name)) [
              | inl here ↦
                  let e : n ≡ name = ground arith in
                  ap (λ i. count_of (find i finalizers)) e
                  ∙ ground (arith, find-store n name new finalizers)
              | inr other ↦ ground (arith, find-store n name new finalizers)
            ]);
        registered = λ n g h.
            let at = find-store n name new finalizers in
            ground (arith, ring.registered n g, owner, some_left);
        active = λ n g h. elim (Bool-cases (n == name)) [
          | inl here ↦
              let e : n ≡ name = ground arith in
              let is_new : new ≡ g = ground (arith, find-store n name new finalizers) in
              (key, ground (arith, is_new), sym e, ground (arith, is_new))
          | inr other ↦ ring.active n g (ground (arith, find-store n name new finalizers))
        ];
      }
