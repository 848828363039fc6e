-- ===== src/Api/Layout.antt =====
-- api/moonx_binary_api.hpp: how a packed struct lies in memory on a little-endian machine, without any
-- byte between its fields. A `long` is given by its bits.
use Prim.Native.String.{String}
use core_connect_binary.Base.{
  ℕ, ◌+◌, List, [], ◌∷◌, ◌++◌, take, drop, replicate, Bytes, le_bytes, le_value,
}

-- The types of the fields.
pub data CType : Type 0 where
  uchar ushort ulong slong : CType
  char_array : ℕ → CType

-- The name of a field and its type.
abbrev pub Field : Type 0
Field = String × CType

abbrev pub sizeof : CType → ℕ
sizeof uchar = 1
sizeof ushort = 2
sizeof ulong = 8
sizeof slong = 8
sizeof (char_array n) = n

-- `sizeof` of a packed struct.
abbrev pub size : List Field → ℕ
size [] = 0
size ((name, t) ∷ fs) = sizeof t + size fs

-- What a field holds.
pub data Value : Type 0 where
  num : ℕ → Value
  chars : Bytes → Value

-- A number is cut to the width of its field; characters fill an array, with NULs behind them.
unfoldable pub store : CType → Value → Bytes
store (char_array n) (num v) = le_bytes n v
store (char_array n) (chars s) = take n (s ++ replicate n 0)
store t (num v) = le_bytes (sizeof t) v
store t (chars s) = take (sizeof t) (s ++ replicate (sizeof t) 0)

unfoldable pub load : CType → Bytes → Value
load (char_array n) bytes = chars bytes
load t bytes = num (le_value bytes)

-- The memory of a struct; a field without a value is 0.
unfoldable pub encode : List Field → List Value → Bytes
encode [] vs = []
encode ((name, t) ∷ fs) [] = replicate (sizeof t) 0 ++ encode fs []
encode ((name, t) ∷ fs) (v ∷ vs) = store t v ++ encode fs vs

-- The fields of a struct, read from memory.
unfoldable pub decode : List Field → Bytes → List Value
decode [] bytes = []
decode ((name, t) ∷ fs) bytes = load t (take (sizeof t) bytes) ∷ decode fs (drop (sizeof t) bytes)
