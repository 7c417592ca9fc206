-- ===== src/Prelude/Bytes.antt =====
-- Arrays of bytes as lists: reads and writes at an index. The models read and write in range only;
-- a read out of range gives zero and a write out of range changes nothing.
use Prim.Native.Nat.{ℕ, zero, suc, ◌<◌}
use mathlib.Core.Path.{◌≡◌, refl}
use mathlib.Core.List.{List, [], ◌∷◌}
use native.Mathlib.Omega.{arith}

-- `arr[i]`
abbrev pub byte : ℕ → List ℕ → ℕ
byte i [] = 0
byte zero (b ∷ rest) = b
byte (suc i) (b ∷ rest) = byte i rest

-- `arr[i] = b`
abbrev pub set_byte : ℕ → ℕ → List ℕ → List ℕ
set_byte i b [] = []
set_byte zero b (old ∷ rest) = b ∷ rest
set_byte (suc i) b (old ∷ rest) = old ∷ set_byte i b rest

abbrev pub byte_count : List ℕ → ℕ
byte_count [] = 0
byte_count (b ∷ rest) = suc (byte_count rest)

-- `f(i), f(i + 1), ...`: the array that a loop of `n` rounds fills.
abbrev pub fill : ℕ → ℕ → (ℕ → ℕ) → List ℕ
fill i zero f = []
fill i (suc n) f = f i ∷ fill (suc i) n f

abbrev pub AreBytes : List ℕ → Type 0
AreBytes [] = Unit
AreBytes (b ∷ rest) = (b < 256) × AreBytes rest

-- An array of `n` bytes.
pub record IsArray (n : ℕ) (bytes : List ℕ) : Type 0 where
  pub size : byte_count bytes ≡ n
  pub all_bytes : AreBytes bytes

byte_count-set_byte : (i b : ℕ) (l : List ℕ) → byte_count (set_byte i b l) ≡ byte_count l
byte_count-set_byte i b [] = refl
byte_count-set_byte zero b (x ∷ l) = refl
byte_count-set_byte (suc i) b (x ∷ l) = omega (arith, byte_count-set_byte i b l)

AreBytes-set_byte : (i b : ℕ) (l : List ℕ) → b < 256 → AreBytes l → AreBytes (set_byte i b l)
AreBytes-set_byte i b [] small bytes = tt
AreBytes-set_byte zero b (x ∷ l) small (here, rest) = (small, rest)
AreBytes-set_byte (suc i) b (x ∷ l) small (here, rest) = (here, AreBytes-set_byte i b l small rest)

pub set_byte-IsArray : (n i b : ℕ) (l : List ℕ) → b < 256 → IsArray n l → IsArray n (set_byte i b l)
set_byte-IsArray n i b l small a = record {
  size = omega (arith, byte_count-set_byte i b l, a.size);
  all_bytes = AreBytes-set_byte i b l small a.all_bytes;
}

pub byte_small : (i : ℕ) (l : List ℕ) → AreBytes l → byte i l < 256
byte_small i [] bytes = omega arith
byte_small zero (x ∷ l) (here, rest) = here
byte_small (suc i) (x ∷ l) (here, rest) = byte_small i l rest

fill_size : (i n : ℕ) (f : ℕ → ℕ) → byte_count (fill i n f) ≡ n
fill_size i zero f = refl
fill_size i (suc n) f = omega (arith, fill_size (suc i) n f)

fill-AreBytes : (i n : ℕ) (f : ℕ → ℕ) → ((k : ℕ) → f k < 256) → AreBytes (fill i n f)
fill-AreBytes i zero f h = tt
fill-AreBytes i (suc n) f h = (h i, fill-AreBytes (suc i) n f h)

pub fill-IsArray : (n : ℕ) (f : ℕ → ℕ) → ((k : ℕ) → f k < 256) → IsArray n (fill 0 n f)
fill-IsArray n f h = record { size = fill_size 0 n f; all_bytes = fill-AreBytes 0 n f h }
