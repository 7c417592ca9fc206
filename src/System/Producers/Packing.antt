-- ===== src/System/Producers/Packing.antt =====
-- How a row of the table `producers` is packed and read (contracts/eosio.system/include/
-- eosio.system.hpp: the two stream operators of _producers_s). The operators of the members are the
-- library's: they are a parameter, with the law that a member in its format is read as it was
-- written, whatever follows.
use mathlib.Core.List.{append-nil}
use twig_system_contracts.Prelude.{
  ℕ, Bool, Option, none, some, List, [], ◌∷◌, ◌++◌, String, ◌≡◌, ◌≢◌, refl,
}
use twig_system_contracts.Chain.{Result, ok, ◌>>=◌, >>=-ok}
use twig_system_contracts.System.Producers.State.{SigningAuthority, Producer}

-- The two stream operators of a type; `InFormat` says which values a type of the machine holds.
pub record Codec (T : Type 0) : Type 1 where
  pub put : T → List ℕ
  pub get : List ℕ → Result (T × List ℕ)
  pub InFormat : T → Type 0
  pub get_put : (x : T) (rest : List ℕ) → InFormat x → get (put x ++ rest) ≡ ok (x, rest)

pub record Codecs : Type 1 where
  pub name : Codec ℕ
  pub float64 : Codec ℕ
  pub public_key : Codec (List ℕ)
  pub boolean : Codec Bool
  pub text : Codec String
  pub uint32 : Codec ℕ
  pub time_point : Codec ℕ
  pub uint16 : Codec ℕ
  pub authority : Codec SigningAuthority
  -- an authority takes at least one byte
  pub some_bytes : (a : SigningAuthority) → authority.put a ≢ []

module _ (codecs : Codecs) where
  -- `return ds` where there is no authority, else `ds << t.producer_authority`
  abbrev pub put_extension : Option SigningAuthority → List ℕ
  put_extension none = []
  put_extension (some a) = codecs.authority.put a

  -- `binary_extension`: it is there if any bytes are left.
  unfoldable pub get_extension : List ℕ → Result (Option SigningAuthority × List ℕ)
  get_extension [] = ok (none, [])
  get_extension (b ∷ bytes) = do (a, rest) ← codecs.authority.get (b ∷ bytes); ok (some a, rest)

  -- `operator <<`
  unfoldable pub put_producer : Producer → List ℕ
  put_producer t =
      codecs.name.put t.owner
      ++ (codecs.float64.put t.total_votes
          ++ (codecs.public_key.put t.producer_key
              ++ (codecs.boolean.put t.is_active
                  ++ (codecs.text.put t.url
                      ++ (codecs.uint32.put t.unpaid_blocks
                          ++ (codecs.time_point.put t.last_claim_time
                              ++ (codecs.uint16.put t.location
                                  ++ put_extension t.producer_authority)))))))

  -- `operator >>`
  unfoldable pub get_producer : List ℕ → Result (Producer × List ℕ)
  get_producer bytes = do
    (owner, bytes) ← codecs.name.get bytes
    (total_votes, bytes) ← codecs.float64.get bytes
    (producer_key, bytes) ← codecs.public_key.get bytes
    (is_active, bytes) ← codecs.boolean.get bytes
    (url, bytes) ← codecs.text.get bytes
    (unpaid_blocks, bytes) ← codecs.uint32.get bytes
    (last_claim_time, bytes) ← codecs.time_point.get bytes
    (location, bytes) ← codecs.uint16.get bytes
    (producer_authority, bytes) ← get_extension bytes
    ok (
      record {
        owner = owner;
        total_votes = total_votes;
        producer_key = producer_key;
        is_active = is_active;
        url = url;
        unpaid_blocks = unpaid_blocks;
        last_claim_time = last_claim_time;
        location = location;
        producer_authority = producer_authority;
      },
      bytes,
    )

  abbrev AuthorityInFormat : Option SigningAuthority → Type 0
  AuthorityInFormat none = Unit {0}
  AuthorityInFormat (some a) = codecs.authority.InFormat a

  -- Each member is a value of its type.
  pub record IsPackable (t : Producer) : Type 0 where
    pub owner : codecs.name.InFormat t.owner
    pub total_votes : codecs.float64.InFormat t.total_votes
    pub producer_key : codecs.public_key.InFormat t.producer_key
    pub is_active : codecs.boolean.InFormat t.is_active
    pub url : codecs.text.InFormat t.url
    pub unpaid_blocks : codecs.uint32.InFormat t.unpaid_blocks
    pub last_claim_time : codecs.time_point.InFormat t.last_claim_time
    pub location : codecs.uint16.InFormat t.location
    pub producer_authority : AuthorityInFormat t.producer_authority

  get_extension-some :
      (a : SigningAuthority) (l : List ℕ)
      → codecs.authority.put a ≡ l
      → codecs.authority.InFormat a
      → get_extension l ≡ ok (some a, [])
  unfolding get_extension
  get_extension-some a [] e fit = absurd (codecs.some_bytes a e)
  get_extension-some a (b ∷ l) e fit =
      let g = codecs.authority.get_put a [] fit in
      let g' : codecs.authority.get (b ∷ l) ≡ ok (a, []) =
        rw (append-nil (codecs.authority.put a), e) at g in
      >>=-ok (codecs.authority.get (b ∷ l)) _ g'

  get-put_extension :
      (o : Option SigningAuthority)
      → AuthorityInFormat o
      → get_extension (put_extension o) ≡ ok (o, [])
  unfolding get_extension
  get-put_extension none fit = refl
  get-put_extension (some a) fit = get_extension-some a (codecs.authority.put a) refl fit

  -- A row whose members are values of their types is read as it was written, with nothing left over,
  -- whether or not it has an authority.
  pub get-put_producer : (t : Producer) → IsPackable t → get_producer (put_producer t) ≡ ok (t, [])
  unfolding get_producer put_producer
  get-put_producer t fit =
      rw
        (
          codecs.name.get_put t.owner _ fit.owner,
          codecs.float64.get_put t.total_votes _ fit.total_votes,
          codecs.public_key.get_put t.producer_key _ fit.producer_key,
          codecs.boolean.get_put t.is_active _ fit.is_active,
          codecs.text.get_put t.url _ fit.url,
          codecs.uint32.get_put t.unpaid_blocks _ fit.unpaid_blocks,
          codecs.time_point.get_put t.last_claim_time _ fit.last_claim_time,
          codecs.uint16.get_put t.location _ fit.location,
          get-put_extension t.producer_authority fit.producer_authority,
        )
        refl
