-- ===== src/Api/RoundTrip.antt =====
-- api/moonx_binary_api.hpp: a struct is read back as it was written.
use core_connect_binary.Base.{
  ℕ, ◌+◌, ◌^◌, ◌<◌, ◌≡◌, refl, sym, ap, ap₂, ◌∙◌, List, [], ◌∷◌, ◌++◌, append_assoc, arith, take,
  drop, length, replicate, length-append, length-take_le, length-replicate, take-append_length,
  drop-append_length, Bytes, length-le_bytes, le_value-le_bytes,
}
use core_connect_binary.Api.Layout.{
  CType, uchar, ushort, ulong, slong, char_array, Field, sizeof, size, Value, num, chars, store,
  load, encode, decode,
}

padded : (n : ℕ) (s : Bytes) → length (take n (s ++ replicate n 0)) ≡ n
padded n s =
    length-take_le (s ++ replicate n 0)
      (omega (arith, length-append s (replicate n 0), length-replicate {A = ℕ} n 0))

pub length-store : (t : CType) (v : Value) → length (store t v) ≡ sizeof t
unfolding store
length-store uchar (num v) = length-le_bytes 1 v
length-store uchar (chars s) = padded 1 s
length-store ushort (num v) = length-le_bytes 2 v
length-store ushort (chars s) = padded 2 s
length-store ulong (num v) = length-le_bytes 8 v
length-store ulong (chars s) = padded 8 s
length-store slong (num v) = length-le_bytes 8 v
length-store slong (chars s) = padded 8 s
length-store (char_array n) (num v) = length-le_bytes n v
length-store (char_array n) (chars s) = padded n s

-- A struct takes the sum of the sizes of its fields, whatever it holds.
pub length-encode : (fs : List Field) (vs : List Value) → length (encode fs vs) ≡ size fs
unfolding encode
length-encode [] vs = refl
length-encode ((name, t) ∷ fs) [] =
    length-append (replicate (sizeof t) 0) (encode fs [])
    ∙ ap₂ (λ a b. a + b) (length-replicate (sizeof t) 0) (length-encode fs [])
length-encode ((name, t) ∷ fs) (v ∷ vs) =
    length-append (store t v) (encode fs vs)
    ∙ ap₂ (λ a b. a + b) (length-store t v) (length-encode fs vs)

-- A number in the range of the type, or characters that fill the array.
abbrev pub Fits : CType → Value → Type 0
Fits (char_array n) (num v) = ⊥
Fits (char_array n) (chars s) = length s ≡ n
Fits t (num v) = v < 256 ^ sizeof t
Fits t (chars s) = ⊥

abbrev pub AllFit : List Field → List Value → Type 0
AllFit [] [] = Unit
AllFit [] (v ∷ vs) = ⊥
AllFit (f ∷ fs) [] = ⊥
AllFit (f ∷ fs) (v ∷ vs) = Fits f.1 v × AllFit fs vs

load-store : (t : CType) (v : Value) → Fits t v → load t (store t v) ≡ v
unfolding load store
load-store uchar (num v) h = ap num (le_value-le_bytes 1 v h)
load-store uchar (chars s) h = absurd h
load-store ushort (num v) h = ap num (le_value-le_bytes 2 v h)
load-store ushort (chars s) h = absurd h
load-store ulong (num v) h = ap num (le_value-le_bytes 8 v h)
load-store ulong (chars s) h = absurd h
load-store slong (num v) h = ap num (le_value-le_bytes 8 v h)
load-store slong (chars s) h = absurd h
load-store (char_array n) (num v) h = absurd h
load-store (char_array n) (chars s) h =
    ap chars (ap (λ k. take k (s ++ replicate n 0)) (sym h) ∙ take-append_length s (replicate n 0))

-- For any layout: values that fit their fields are read back from the memory of the struct, whatever
-- bytes follow it.
pub decode-encode :
    (fs : List Field) (vs : List Value) (rest : Bytes)
    → AllFit fs vs
    → decode fs (encode fs vs ++ rest) ≡ vs
unfolding decode encode
decode-encode [] [] rest h = refl
decode-encode [] (v ∷ vs) rest h = absurd h
decode-encode (f ∷ fs) [] rest h = absurd h
decode-encode ((name, t) ∷ fs) (v ∷ vs) rest h =
    let whole = store t v ++ (encode fs vs ++ rest) in
    let split : (store t v ++ encode fs vs) ++ rest ≡ whole =
      append_assoc (store t v) (encode fs vs) rest in
    let front : take (sizeof t) whole ≡ store t v =
      ap (λ k. take k whole) (sym (length-store t v))
      ∙ take-append_length (store t v) (encode fs vs ++ rest) in
    let back : drop (sizeof t) whole ≡ encode fs vs ++ rest =
      ap (λ k. drop k whole) (sym (length-store t v))
      ∙ drop-append_length (store t v) (encode fs vs ++ rest) in
    ap (λ m. load t (take (sizeof t) m) ∷ decode fs (drop (sizeof t) m)) split
    ∙ ap₂ (λ a b. a ∷ b) (ap (load t) front ∙ load-store t v h.0)
        (ap (decode fs) back ∙ decode-encode fs vs rest h.1)
