-- ===== src/Client/Structures.antt =====
-- src/binary_gateway_load_test_client.cpp: a JSON document as the bytes of a message.
use Prim.Native.Nat.{Ordering}
use Prim.Native.String.{String, compare}
use core_connect_binary.Base.{
  ℕ, ◌+◌, Bool, true, false, ◌||◌, Option, none, some, List, [], ◌∷◌, ◌++◌, take, length, replicate,
  if◌then◌else◌, Bytes, memcpy, c_string, le_bytes, ignore_ret,
}
use core_connect_binary.Kernel.{Kernel}
use core_connect_binary.Client.Json.{Json, from_brace}
use core_connect_binary.Client.Session.{Client}
use core_connect_binary.Client.Sending.{tcp_write}

-- `strcmp(s, t) == 0`
abbrev pub is_text : String → String → Bool
is_text s t = elim (compare s t) [ Ordering.eq ↦ true | _ ↦ false ]

-- How a member is written: a number of 2, 1 or 8 bytes, or a text.
pub data Kind : Type 0 where
  two_bytes one_byte text eight_bytes : Kind

-- The tests on the name.
unfoldable pub kind : String → Kind
kind name =
    if is_text name "MessageLength"
      || (is_text name "MessageType" || is_text name "MarketPriceProtectionTicks")
    then two_bytes
    else if is_text name "OrderType"
        || (is_text name "TIF"
            || (is_text name "Side" || (is_text name "ExType" || is_text name "OrdTrig")))
    then one_byte
    else if is_text name "Password"
        || (is_text name "PrimaryIPAddress"
            || (is_text name "SecondaryIPAddress" || is_text name "PasswordDetails"))
    then text
    else eight_bytes

-- How far `nOffSet` moves.
abbrev pub width : Kind → ℕ
width two_bytes = 2
width one_byte = 1
width text = 16
width eight_bytes = 8

-- What `strncpy(dst, s, n)` writes for the `n` bytes of `s`: up to a NUL, then NULs.
abbrev pub strncpy_bytes : Bytes → Bytes
strncpy_bytes s = take (length s) (c_string s ++ replicate (length s) 0)

module _ {D V : Type 0} (j : Json D V) where
  -- The bytes that are copied for a member.
  unfoldable pub copied : Kind → V → Bytes
  copied two_bytes v = le_bytes 2 (j.get_uint v)
  copied one_byte v = le_bytes 1 (j.get_uint v)
  copied text v = strncpy_bytes (j.get_string v)
  copied eight_bytes v = le_bytes 8 (j.get_uint64 v)

  -- The loop over the members, on `writebuf` and `nOffSet`.
  unfoldable pub write_members : List (String × V) → Bytes → ℕ → Bytes × ℕ
  write_members [] writebuf offset = (writebuf, offset)
  write_members ((name, v) ∷ ms) writebuf offset =
      write_members ms (memcpy writebuf offset (copied (kind name) v)) (offset + width (kind name))

  -- A text that is not a document gives no byte.
  unfoldable pub structure : Option D → Bytes × ℕ
  structure none = (replicate 2048 0, 0)
  structure (some doc) = write_members (j.members doc) (replicate 2048 0) 0

  module _ {W : Type 0} (k : Kernel W) (ev_terminate : W → ℕ × W) (fuel : Bytes → W → ℕ) where
    unfoldable pub write_structure : Bytes → Client W → Option (ℕ × Client W)
    write_structure [] c = some (0, c)
    write_structure (x ∷ buf) c =
        let (writebuf, offset) = structure (j.parse (x ∷ buf)) in
        ignore_ret (tcp_write k ev_terminate fuel (take offset writebuf) c)

    unfoldable pub process_json_structures : Bytes → Client W → Option (ℕ × Client W)
    process_json_structures buf c = write_structure (from_brace buf) c
