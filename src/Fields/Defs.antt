-- ===== src/Fields/Defs.antt =====
-- util_lib/fields/h/fields.hpp: the class `fields`, a buffer of fields with a read iterator.
-- A method is a function of the object that returns its outcome and the object after it, also when
-- it throws. `size_t` sums that can wrap are taken mod 2^64. A value of a basic type is the number
-- that its `sizeof(T)` bytes hold, little-endian.
use core_connect_binary.Base.{
  ℕ, zero, suc, ◌+◌, ◌-◌, ◌%◌, ◌^◌, [], ◌∷◌, ◌++◌, ltb, leb, if◌then◌else◌, length, take, drop,
  Bytes, memcpy, c_string, le_bytes, le_value,
}

-- The texts of the thrown `std::logic_error`, and the `std::length_error` that `string::assign`
-- throws for more bytes than `max_size()`.
pub data Error : Type 0 where
  no_space data_exhausted field_too_big insert_too_big copy_too_big length_error : Error

pub data Outcome {ℓ} (A : Type ℓ) : Type ℓ where
  returns : A → Outcome A
  throws : Error → Outcome A

pub record Fields : Type 0 where
  pub max_buffer_len : ℕ
  pub current_buffer_len : ℕ
  pub current_iterator : ℕ
  pub buffer : Bytes

abbrev pub M : Type 0 → Type 0
M A = Fields → Outcome A × Fields

infixl 5 ◌>>=◌ ◌>>◌
abbrev pub ◌>>=◌ : {A B : Type 0} → M A → (A → M B) → M B
◌>>=◌ m k f = let (r, f') = m f in elim r [ returns a ↦ k a f' | throws e ↦ (throws e, f') ]

abbrev pub ◌>>◌ : {A B : Type 0} → M A → M B → M B
m >> k = m >>= λ _. k

-- The bytes that `new unsigned char [max_len]` leaves in the buffer are not determined by the code:
-- they are the argument `storage`.
pub fields : Bytes → ℕ → Fields
fields storage max_len = record {
  max_buffer_len = max_len;
  current_buffer_len = 0;
  current_iterator = 0;
  buffer = storage;
}

-- `memcpy(buffer + current_buffer_len, src, n); current_buffer_len += n`
abbrev pub append : Bytes → Fields → Fields
append src f = record f {
  buffer = memcpy f.buffer f.current_buffer_len src;
  current_buffer_len = f.current_buffer_len + length src;
}

unfoldable pub copy_data_in : Bytes → M (Unit {0})
copy_data_in src f =
    if ltb 255 (length src)
    then (throws field_too_big, f)
    else if ltb f.max_buffer_len (f.current_buffer_len + length src + 1)
    then (throws no_space, f)
    else (returns tt, append src (append ((length src % 256) ∷ []) f))

unfoldable pub copy_data_in_fixed : Bytes → M (Unit {0})
copy_data_in_fixed src f =
    if ltb 255 (length src)
    then (throws field_too_big, f)
    else if ltb f.max_buffer_len (f.current_buffer_len + length src)
    then (throws no_space, f)
    else (returns tt, append src f)

-- `add_field(T value)`: `width` is `sizeof(T)`.
unfoldable pub add_field : ℕ → ℕ → M (Unit {0})
add_field width value f =
    if ltb f.max_buffer_len (f.current_buffer_len + width)
    then (throws no_space, f)
    else (returns tt, append (le_bytes width value) f)

-- The overloads for C strings: `memory` is what the pointer points to.
unfoldable pub add_field_c_string : Bytes → M (Unit {0})
add_field_c_string memory = copy_data_in (c_string memory)

-- The overloads for arbitrary memory, not null terminated.
unfoldable pub add_field_memory : Bytes → ℕ → M (Unit {0})
add_field_memory memory len = copy_data_in (take len memory)

unfoldable pub add_field_string : Bytes → M (Unit {0})
add_field_string value = copy_data_in value

-- The argument `len` is not read.
unfoldable pub add_field_fixed : Bytes → ℕ → M (Unit {0})
add_field_fixed value len = copy_data_in_fixed value

-- The padding loop, by the rounds left.
unfoldable pub add_padding : ℕ → ℕ → M (Unit {0})
add_padding zero pad f = (returns tt, f)
add_padding (suc n) pad f = (copy_data_in_fixed (pad ∷ []) >> add_padding n pad) f

-- `int to_pad = len - value.size()`: the loop makes no round if the `int` is negative.
abbrev pub pad_rounds : ℕ → ℕ → ℕ
pad_rounds len size =
    let to_pad = (len - size) % 2 ^ 32 in if ltb to_pad (2 ^ 31) then to_pad else 0

unfoldable pub add_field_fixed_length : Bytes → ℕ → ℕ → M (Unit {0})
add_field_fixed_length value len pad =
    if leb len (length value)
    then copy_data_in_fixed (take len value)
    else copy_data_in_fixed value >> add_padding (pad_rounds len (length value)) pad

abbrev pub advance : ℕ → Fields → Fields
advance n f = record f { current_iterator = f.current_iterator + n }

-- The `len` bytes from the read iterator on.
abbrev pub at_iterator : ℕ → Fields → Bytes
at_iterator len f = take len (drop f.current_iterator f.buffer)

-- `get_field(T &value)`
unfoldable pub get_field : ℕ → M ℕ
get_field width f =
    if ltb f.current_buffer_len (f.current_iterator + width)
    then (throws data_exhausted, f)
    else (returns (le_value (at_iterator width f)), advance width f)

-- What stands behind the length byte; that byte has been read already, also if this throws.
unfoldable pub get_counted : ℕ → M Bytes
get_counted len f =
    if ltb f.current_buffer_len (f.current_iterator + len)
    then (throws data_exhausted, f)
    else (returns (at_iterator len f), advance len f)

-- `get_field(unsigned char *value, size_t &len)`; the result has `len` bytes.
unfoldable pub get_field_memory : M Bytes
get_field_memory f =
    if leb f.current_buffer_len f.current_iterator
    then (throws data_exhausted, f)
    else get_counted (le_value (at_iterator 1 f)) (advance 1 f)

-- `get_field(unsigned char *value)`: the bytes written through the pointer, with their NUL.
unfoldable pub get_field_c_string : M Bytes
get_field_c_string = get_field_memory >>= λ bytes f. (returns (bytes ++ 0 ∷ []), f)

unfoldable pub get_field_string : M Bytes
get_field_string f =
    if leb f.current_buffer_len f.current_iterator
    then (throws data_exhausted, f)
    else get_counted (le_value (at_iterator 1 f)) (advance 1 f)

unfoldable pub get_field_fixed : ℕ → M Bytes
get_field_fixed len f =
    if leb f.current_buffer_len f.current_iterator
    then (throws data_exhausted, f)
    else if ltb f.current_buffer_len ((f.current_iterator + len) % 2 ^ 64)
    then (throws data_exhausted, f)
    else if ltb (2 ^ 63 - 1) len
    then (throws length_error, f)
    else (returns (at_iterator len f), advance len f)

unfoldable pub get_reset : Fields → Fields
get_reset f = record f { current_iterator = 0 }

unfoldable pub clear : Fields → Fields
clear f = get_reset (record f { current_buffer_len = 0 })

unfoldable pub size : Fields → ℕ
size f = f.current_buffer_len

-- `insert(src, len)`, for the `len` bytes of `src`.
unfoldable pub insert : Bytes → M (Unit {0})
insert src f =
    let f' = clear f in
    if ltb f'.max_buffer_len (length src) then (throws insert_too_big, f') else (
      returns tt,
      record f' { buffer = memcpy f'.buffer 0 src; current_buffer_len = length src },
    )

-- `copy(dst, max_len, len)`: what is copied out; `len` is its length.
unfoldable pub copy : ℕ → M Bytes
copy max_len f =
    if ltb max_len f.current_buffer_len
    then (throws copy_too_big, f)
    else (returns (take f.current_buffer_len f.buffer), f)
