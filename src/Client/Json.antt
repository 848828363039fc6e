-- ===== src/Client/Json.antt =====
-- src/binary_gateway_load_test_client.cpp: the JSON of the console commands. The library rapidjson is a
-- parameter, the record `Json`; a number of another kind than is asked for is taken not to occur. A
-- command is shorter than the 512 bytes that the code copies it to.
use Prim.Native.String.{String}
use core_connect_binary.Base.{ℕ, Option, none, some, List, [], ◌∷◌, ◌==◌, if◌then◌else◌, Bytes}

-- Documents `D` and values `V`.
pub record Json (D V : Type 0) : Type 0 where
  pub parse : Bytes → Option D
  pub find_member : D → String → Option V
  pub members : D → List (String × V)
  pub get_int : V → ℕ
  pub get_int64 : V → ℕ
  pub get_uint : V → ℕ
  pub get_uint64 : V → ℕ
  pub get_string : V → Bytes

-- `while (*buf && *buf != '{') ++buf`
unfoldable pub from_brace : Bytes → Bytes
from_brace [] = []
from_brace (c ∷ buf) = if c == b'{' then c ∷ buf else from_brace buf

module _ {D V : Type 0} (j : Json D V) where
  -- The document of a command; nothing if there is none, or it has an error.
  abbrev pub document_at : Bytes → Option D
  document_at [] = none
  document_at (c ∷ buf) = j.parse (c ∷ buf)

  unfoldable pub document : Bytes → Option D
  document buf = document_at (from_brace buf)

  abbrev pub int_or : ℕ → Option V → ℕ
  int_or x none = x
  int_or x (some v) = j.get_int v

  -- `if (doc.HasMember(name)) x = doc[name].GetInt();`
  unfoldable pub member_or : ℕ → String → D → ℕ
  member_or x name doc = int_or x (j.find_member doc name)

  abbrev pub int64_or : ℕ → Option V → ℕ
  int64_or x none = x
  int64_or x (some v) = j.get_int64 v

  -- The same with `GetInt64`.
  unfoldable pub member64_or : ℕ → String → D → ℕ
  member64_or x name doc = int64_or x (j.find_member doc name)
