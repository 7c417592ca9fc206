-- ===== src/System/Producers/PackingTests.antt =====
-- A row of a producer that is packed and read, with a short format for each member.
use twig_system_contracts.Prelude.{
  ℕ, Bool, true, false, none, some, List, [], ◌∷◌, ◌++◌, String, ◌≡◌, ◌≢◌, refl, ◌==◌,
}
use twig_system_contracts.Chain.{Result, ok, err, refused}
use twig_system_contracts.System.Producers.State.{SigningAuthority, Producer}
use twig_system_contracts.System.Producers.Packing.{
  Codec, Codecs, get_producer, put_producer, get-put_producer, get_extension,
}

abbrev get_byte : List ℕ → Result (ℕ × List ℕ)
get_byte [] = err refused
get_byte (b ∷ rest) = ok (b, rest)

abbrev one_byte : Codec ℕ
one_byte = record {
  put = λ n. n ∷ [];
  get = get_byte;
  InFormat = λ n. Unit {0};
  get_put = λ n rest fit. refl;
}

-- Keys of two bytes.
abbrev IsShort : List ℕ → Type 0
IsShort (a ∷ b ∷ []) = Unit {0}
IsShort other = ⊥

abbrev get_key : List ℕ → Result (List ℕ × List ℕ)
get_key (a ∷ b ∷ rest) = ok (a ∷ b ∷ [], rest)
get_key other = err refused

key_lem : (k rest : List ℕ) → IsShort k → get_key (k ++ rest) ≡ ok (k, rest)
key_lem [] rest fit = absurd fit
key_lem (a ∷ []) rest fit = absurd fit
key_lem (a ∷ b ∷ []) rest fit = refl
key_lem (a ∷ b ∷ c ∷ k) rest fit = absurd fit

abbrev key : Codec (List ℕ)
key = record { put = λ k. k; get = get_key; InFormat = IsShort; get_put = key_lem }

abbrev put_bool : Bool → List ℕ
put_bool true = 1 ∷ []
put_bool false = 0 ∷ []

abbrev get_bool : List ℕ → Result (Bool × List ℕ)
get_bool [] = err refused
get_bool (b ∷ rest) = ok (b == 1, rest)

bool_lem : (b : Bool) (rest : List ℕ) → Unit {0} → get_bool (put_bool b ++ rest) ≡ ok (b, rest)
bool_lem true rest fit = refl
bool_lem false rest fit = refl

abbrev boolean : Codec Bool
boolean = record { put = put_bool; get = get_bool; InFormat = λ b. Unit {0}; get_put = bool_lem }

empty_lem :
    (s : String) (rest : List ℕ)
    → s ≡ ""
    → ◌≡◌ {A = Result (String × List ℕ)} (ok ("", rest)) (ok (s, rest))
empty_lem s rest e = cc

-- Texts that are empty.
abbrev no_text : Codec String
no_text = record {
  put = λ s. [];
  get = λ l. ok ("", l);
  InFormat = λ s. s ≡ "";
  get_put = empty_lem;
}

abbrev get_authority : List ℕ → Result (SigningAuthority × List ℕ)
get_authority [] = err refused
get_authority (n ∷ rest) = ok (record { threshold = n; keys = [] }, rest)

authority_lem :
    (a : SigningAuthority) (rest : List ℕ)
    → a.keys ≡ []
    → get_authority (a.threshold ∷ rest) ≡ ok (a, rest)
authority_lem a rest e = cc

-- Authorities without keys.
abbrev authority : Codec SigningAuthority
authority = record {
  put = λ a. a.threshold ∷ [];
  get = get_authority;
  InFormat = λ a. a.keys ≡ [];
  get_put = authority_lem;
}

not_empty : (a : SigningAuthority) → a.threshold ∷ [] ≢ []
not_empty a e = cc

abbrev codecs : Codecs
codecs = record {
  name = one_byte;
  float64 = one_byte;
  public_key = key;
  boolean = boolean;
  text = no_text;
  uint32 = one_byte;
  time_point = one_byte;
  uint16 = one_byte;
  authority = authority;
  some_bytes = not_empty;
}

abbrev row : Producer
row = record {
  owner = 7;
  total_votes = 5;
  producer_key = 2 ∷ 3 ∷ [];
  is_active = true;
  url = "";
  unpaid_blocks = 0;
  last_claim_time = 0;
  location = 4;
  producer_authority = some (record { threshold = 1; keys = [] });
}

row-bytes : put_producer codecs row ≡ 7 ∷ 5 ∷ 2 ∷ 3 ∷ 1 ∷ 0 ∷ 0 ∷ 4 ∷ 1 ∷ []
unfolding put_producer
row-bytes = refl

-- A row that was written before there were authorities.
old_row-bytes :
    get_producer codecs (7 ∷ 5 ∷ 2 ∷ 3 ∷ 1 ∷ 0 ∷ 0 ∷ 4 ∷ [])
    ≡ ok (record row { producer_authority = none }, [])
unfolding get_producer get_extension
old_row-bytes = refl

get-put_producer_example : get_producer codecs (put_producer codecs row) ≡ ok (row, [])
get-put_producer_example = get-put_producer codecs row (record {
  owner = tt;
  total_votes = tt;
  producer_key = tt;
  is_active = tt;
  url = refl;
  unpaid_blocks = tt;
  last_claim_time = tt;
  location = tt;
  producer_authority = refl;
})
