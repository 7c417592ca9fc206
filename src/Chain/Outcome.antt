-- ===== src/Chain/Outcome.antt =====
-- The outcome of an action. `eosio::check` and the library's own checks abort the transaction and
-- with it every change of state, so an action is a function from the state to a result.
use twig_system_contracts.Prelude.{
  ℕ, Bool, true, false, Option, none, some, List, [], ◌∷◌, String, ◌≡◌, refl, ap,
}

pub data Failure : Type 0 where
  -- `check(false, "...")`, with the fixed part of the text
  message : String → Failure
  -- `require_auth`
  missing_authority : ℕ → Failure
  -- `singleton::get` where nothing is stored
  no_singleton : Failure
  -- `multi_index::emplace` under a key that is taken
  key_taken : Failure
  -- an `end()` iterator that the code reads through or erases
  end_iterator : Failure
  -- a host function or a constructor of the contract library refuses its arguments
  refused : Failure

pub data Result {ℓ} (T : Type ℓ) : Type ℓ where
  err : Failure → Result T
  ok : T → Result T

-- A failure aborts all that follows.
infixl 5 ◌>>=◌ ◌>>◌
abbrev pub ◌>>=◌ {ℓ κ} : {T : Type ℓ} {U : Type κ} → Result T → (T → Result U) → Result U
err failure >>= next = err failure
ok value >>= next = next value

abbrev pub ◌>>◌ {ℓ} : {U : Type ℓ} → Result (Unit {0}) → Result U → Result U
guarded >> rest = guarded >>= λ _. rest

abbrev pub check : Bool → String → Result (Unit {0})
check true text = ok tt
check false text = err (message text)

-- `demand b e` goes on only if `b` holds.
abbrev pub demand : Bool → Failure → Result (Unit {0})
demand true e = ok tt
demand false e = err e

abbrev pub or_fail {ℓ} : {A : Type ℓ} → Option A → Failure → Result A
or_fail (some a) e = ok a
or_fail none e = err e

abbrev pub is_some {ℓ} : {A : Type ℓ} → Option A → Bool
is_some (some a) = true
is_some none = false

abbrev pub is_none {ℓ} : {A : Type ℓ} → Option A → Bool
is_none (some a) = false
is_none none = true

-- The state after an action, which is the old one where the action fails.
abbrev pub state_after {ℓ κ} : {T : Type ℓ} {O : Type κ} → T → Result (T × O) → T
state_after old (ok r) = r.0
state_after old (err e) = old

-- The entry of an action in a log, where it goes through, with what it sends.
abbrev pub noted {ℓ κ ι} :
    {T : Type ℓ} {O : Type κ} {A : Type ι} → A → Result (T × O) → List (A × O)
noted a (ok r) = (a, r.1) ∷ []
noted a (err e) = []

-- A step that goes through hands its value to the rest.
pub >>=-ok {ℓ κ} :
    {T : Type ℓ} {U : Type κ} (step : Result T) (next : T → Result U) {t : T}
    → step ≡ ok t
    → (step >>= next) ≡ next t
>>=-ok step next h = ap (λ r. r >>= next) h

-- A chain that goes through has gone through its first step, and through the rest from there.
pub >>=-eq-ok {ℓ κ} :
    {T : Type ℓ} {U : Type κ} (step : Result T) (next : T → Result U) {u : U}
    → (step >>= next) ≡ ok u
    → (t : T) × (step ≡ ok t) × (next t ≡ ok u)
>>=-eq-ok (err failure) next h = cc
>>=-eq-ok (ok t) next h = (t, refl, h)

pub ok-injective {ℓ} : {T : Type ℓ} {a b : T} → ok a ≡ ok b → a ≡ b
ok-injective h = cc
