-- ===== src/System/Producers/Adding.antt =====
-- A key that is added keeps the registers in agreement (regfinkey).
use twig_system_contracts.Prelude.{
  ℕ, Option, none, some, ◌+◌, ◌^◌, ◌≤◌, ◌<◌, ◌==◌, ℤ, pos, ◌+ℤ◌, int_laws, pos_part, neg_part,
  arith, ◌≡◌, refl, sym, ap, ◌∙◌, true, false, subst, Option-cases, Bool-cases, inl, inr,
}
use twig_system_contracts.Chain.{
  MultiIndex, Table, find, store, find-store, sum, sum-store, weight_of,
}
use twig_system_contracts.System.Producers.State.{FinKey, Finalizer, Host}
use twig_system_contracts.System.Producers.Keys.{by_fin_key, find_key, one_more}
use twig_system_contracts.System.Producers.Ring.{owned, count_of, IsKeyRing, find_key-none}

module _ (host : Host) where
  module _ ⦃mi : MultiIndex⦄ where
    pub step_of :
        {x y w : ℤ} {c d : ℕ} → x +ℤ pos 0 ≡ y +ℤ w → y ≡ pos c → w ≡ pos d → x ≡ pos (c + d)
    step_of a b g = omega (
      int_laws,
      ap pos_part a,
      ap neg_part a,
      ap pos_part b,
      ap neg_part b,
      ap pos_part g,
      ap neg_part g,
    )

    -- A row that was there stays when another is written under a new id.
    pub stays :
        {V : Type 0} (j k : ℕ) (v w : V) (t : Table V)
        → find k t ≡ none
        → find j t ≡ some w
        → find j (store k v t) ≡ some w
    stays j k v w t fresh there = elim (Bool-cases (j == k)) [
      | inl same ↦ absurd (let e : j ≡ k = ground arith in ground (arith, ap (λ i. find i t) e))
      | inr other ↦ find-store j k v t ∙ ground arith
    ]

    one_more-registered :
        (key : FinKey) (old : Option Finalizer)
        → ((f : Finalizer)
            → old ≡ some f
            → (f.finalizer_name ≡ key.finalizer_name) × (0 < f.finalizer_key_count))
        → count_of old + 1 < 2 ^ 32
        → ((one_more key old).finalizer_name ≡ key.finalizer_name)
          × (0 < (one_more key old).finalizer_key_count)
    one_more-registered key none own room = (refl, omega arith)
    one_more-registered key (some f) own room = let (a, b) = own f refl in (a, omega arith)

    one_more-count :
        (key : FinKey) (old : Option Finalizer)
        → count_of old + 1 < 2 ^ 32
        → (one_more key old).finalizer_key_count ≡ count_of old + 1
    one_more-count key none room = refl
    one_more-count key (some f) room = omega arith

    stored-counts :
        (id : ℕ) (key : FinKey) (finkeys : Table FinKey) (finalizers : Table Finalizer) (n : ℕ)
        → find id finkeys ≡ none
        → count_of (find key.finalizer_name finalizers) + 1 < 2 ^ 32
        → sum (owned n) finkeys ≡ pos (count_of (find n finalizers))
        → sum (owned n) (store id key finkeys)
          ≡ pos (
              count_of (
                find n (
                  store key.finalizer_name
                    (one_more key (find key.finalizer_name finalizers))
                    finalizers)))
    stored-counts id key finkeys finalizers n fresh room c =
        let name = key.finalizer_name in
        let more = one_more key (find name finalizers) in
        let l =
          ap (λ o. sum (owned n) (store id key finkeys) +ℤ weight_of (owned n) o) (sym fresh)
          ∙ sum-store (owned n) id key finkeys in
        rw (find-store n name more finalizers) (elim (Bool-cases (key.finalizer_name == n)) [
          | inl here ↦
              let same : name ≡ n = ground arith in
              let one : owned n key ≡ pos 1 = rw here refl in
              let back : (n == name) ≡ true = ground arith in
              let c' = c ∙ ap (λ i. pos (count_of (find i finalizers))) (sym same) in
              rw (back, one_more-count key (find name finalizers) room) (step_of l c' one)
          | inr other ↦
              let none_of : owned n key ≡ pos 0 = rw other refl in
              let back : (n == name) ≡ false = ground arith in
              rw back (step_of l c none_of ∙ ap pos (omega arith))
        ])

    -- A new key, under the next id.
    pub store-IsKeyRing :
        {finkeys : Table FinKey} {finkeyidgen : Table ℕ} {finalizers : Table Finalizer} (id : ℕ)
        (key : FinKey)
        → IsKeyRing host finkeys finkeyidgen finalizers
        → key.id ≡ id
        → find_key host (by_fin_key host key) finkeys ≡ none
        → find id finkeys ≡ none
        → ((last : ℕ) → find 0 finkeyidgen ≡ some last → last ≤ id)
        → count_of (find key.finalizer_name finalizers) + 1 < 2 ^ 32
        → IsKeyRing host (store id key finkeys) (store 0 id finkeyidgen) (
            store key.finalizer_name (one_more key (find key.finalizer_name finalizers)) finalizers)
    store-IsKeyRing {finkeys} {finkeyidgen} {finalizers} id key ring own new fresh above room =
        let name = key.finalizer_name in
        let more = one_more key (find name finalizers) in
        record {
          keyed = λ k row h. ground (arith, find-store k id key finkeys, ring.keyed k row);
          given = λ k row h. (
            id,
            ground (arith, find-store 0 0 id finkeyidgen),
            elim (Bool-cases (k == id)) [
              | inl here ↦ ground arith
              | inr other ↦
                  let (last, found, low) =
                    ring.given k row (ground (arith, find-store k id key finkeys)) in
                  let high = above last found in omega arith
            ],
          );
          distinct = λ j k a b there here same.
              let l = find-store j id key finkeys in
              let r = find-store k id key finkeys in
              ground (
                arith,
                ring.distinct j k a b,
                find_key-none host (by_fin_key host key) k b finkeys new,
                find_key-none host (by_fin_key host key) j a finkeys new,
              );
          counts = λ n. stored-counts id key finkeys finalizers n fresh room (ring.counts n);
          registered = λ n f h. elim (Bool-cases (n == name)) [
            | inl here ↦
                let same : n ≡ name = ground arith in
                let new_row : more ≡ f = ground (arith, find-store n name more finalizers) in
                let (a, b) =
                  one_more-registered key (find name finalizers) (ring.registered name) room in
                (
                  ap (λ r. r.finalizer_name) (sym new_row) ∙ a ∙ sym same,
                  subst (λ r. 0 < r.finalizer_key_count) new_row b,
                )
            | inr other ↦ ring.registered n f (ground (arith, find-store n name more finalizers))
          ];
          active = λ n f h. elim (Bool-cases (n == name)) [
            | inl here ↦
                let same : n ≡ name = ground arith in
                let new_row : more ≡ f = ground (arith, find-store n name more finalizers) in
                elim (Option-cases (find name finalizers)) [
                  | inl first ↦ (
                    key,
                    ground (arith, find-store id id key finkeys),
                    sym same,
                    ground (arith, first, new_row),
                  )
                  | inr (old, there) ↦
                      let (row, at, mine, bytes) = ring.active name old there in
                      (
                        row,
                        stays f.active_key_id id key row finkeys fresh
                            (ground (arith, at, new_row, there)),
                        mine ∙ sym same,
                        ground (arith, there, new_row, bytes),
                      )
                ]
            | inr other ↦
                let (row, at, mine, bytes) =
                  ring.active n f (ground (arith, find-store n name more finalizers)) in
                (row, stays f.active_key_id id key row finkeys fresh at, mine, bytes)
          ];
        }
