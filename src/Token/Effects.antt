-- ===== src/Token/Effects.antt =====
-- What the loops of `issue` and `retire` do to the supplies and to one balance.
use twig_system_contracts.Prelude.{
  ℕ, ◌<◌, ◌^◌, [], ◌∷◌, ℤ, pos, pos_part, ◌+ℤ◌, ◌≤ℤ◌, int_laws, ◌==◌, if◌then◌else◌, lookup, ◌≡◌,
  refl, ◌∙◌,
}
use twig_system_contracts.Chain.{Pairs, is_some}
use twig_system_contracts.Token.State.{Supplies}
use twig_system_contracts.Token.Amounts.{amount_of, FromZero}

-- Every supply lies between zero and its limit, every limit below 2^62, and the two maps have the
-- same symbols.
pub record IsSupplied (x : Supplies) : Type 0 where
  pub ranged : (s : ℕ) → FromZero (amount_of s x.supply)
  pub capped : (s : ℕ) → amount_of s x.supply ≤ℤ amount_of s x.max_supply
  pub limited : (s : ℕ) → FromZero (amount_of s x.max_supply)
  pub same_keys : (s : ℕ) → is_some (lookup s x.supply) ≡ is_some (lookup s x.max_supply)

-- A balance that is a part of the supplies.
abbrev pub IsPart : Pairs → Supplies → Type 0
IsPart b x = (s : ℕ) → (pos 0 ≤ℤ amount_of s b) × (amount_of s b ≤ℤ amount_of s x.supply)

abbrev pub only : ℕ → ℕ → ℤ → ℤ
only s k v = if s == k then v else pos 0

-- What a list of pairs asks for of one symbol.
abbrev pub requested : ℕ → Pairs → ℤ
requested s [] = pos 0
requested s ((k, v) ∷ rest) = only s k v +ℤ requested s rest

-- The supplies and the balance have both moved by `delta`, the limits have not, and what was sound
-- still is.
pub record Moves (delta : ℕ → ℤ) (x : Supplies × Pairs) (y : Supplies × Pairs) : Type 0 where
  pub supplied : (s : ℕ) → amount_of s y.0.supply ≡ amount_of s x.0.supply +ℤ delta s
  pub balanced : (s : ℕ) → amount_of s y.1 ≡ amount_of s x.1 +ℤ delta s
  pub limits : y.0.max_supply ≡ x.0.max_supply
  pub sound : IsSupplied y.0
  pub part : IsPart y.1 y.0

-- No amount of the request is above 2^62.
abbrev pub IsModest : Pairs → Type 0
IsModest [] = Unit {0}
IsModest ((k, v) ∷ rest) = (pos_part v < 2 ^ 62) × IsModest rest

pub add_zero : (a : ℤ) → a +ℤ pos 0 ≡ a
add_zero a = omega int_laws

-- The same of one symbol.
abbrev pub MovesAt : ℕ → ℤ → Supplies → Pairs → Supplies × Pairs → Type 0
MovesAt s d x b y =
    (amount_of s y.0.supply ≡ amount_of s x.supply +ℤ d)
    × (amount_of s y.1 ≡ amount_of s b +ℤ d)
    × (y.0.max_supply ≡ x.max_supply)
    × FromZero (amount_of s y.0.supply)
    × (amount_of s y.0.supply ≤ℤ amount_of s x.max_supply)
    × (pos 0 ≤ℤ amount_of s y.1)
    × (amount_of s y.1 ≤ℤ amount_of s y.0.supply)
    × (is_some (lookup s y.0.supply) ≡ is_some (lookup s x.supply))

pub Moves-of_each :
    (delta : ℕ → ℤ) (x : Supplies) (b : Pairs) (y : Supplies × Pairs)
    → IsSupplied x
    → ((s : ℕ) → MovesAt s (delta s) x b y)
    → Moves delta (x, b) y
Moves-of_each delta x b y sup facts =
    let limits : y.0.max_supply ≡ x.max_supply = (facts 0).2 in
    record {
      supplied = λ s. (facts s).0;
      balanced = λ s. (facts s).1;
      limits = limits;
      sound = record {
        ranged = λ s. (facts s).3;
        capped = λ s. rw limits (facts s).4;
        limited = λ s. rw limits (sup.limited s);
        same_keys = λ s. rw (limits, (facts s).7) (sup.same_keys s);
      };
      part = λ s. ((facts s).5, (facts s).6);
    }

pub Moves-trans :
    {d e : ℕ → ℤ} {x y z : Supplies × Pairs}
    → Moves d x y
    → Moves e y z
    → Moves (λ s. d s +ℤ e s) x z
Moves-trans m n = record {
  supplied = λ s. rw (n.supplied s, m.supplied s) (omega int_laws);
  balanced = λ s. rw (n.balanced s, m.balanced s) (omega int_laws);
  limits = n.limits ∙ m.limits;
  sound = n.sound;
  part = n.part;
}

pub Moves-none :
    (x : Supplies) (b : Pairs) → IsSupplied x → IsPart b x → Moves (λ s. pos 0) (x, b) (x, b)
Moves-none x b sup part = record {
  supplied = λ s. omega int_laws;
  balanced = λ s. omega int_laws;
  limits = refl;
  sound = sup;
  part = part;
}
