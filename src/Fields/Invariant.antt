-- ===== src/Fields/Invariant.antt =====
-- util_lib/fields: the representation invariant of a `fields` object, under every call.
use core_connect_binary.Base.{
  ℕ, zero, suc, ◌+◌, ◌%◌, ◌^◌, ◌≤◌, ◌<◌, ◌≡◌, [], ◌∷◌, arith, length, Bytes, le_bytes, le_value,
  length-memcpy, length-le_bytes, c_string, take,
}
use core_connect_binary.Fields.Defs.{
  Fields, append, add_field, copy_data_in, copy_data_in_fixed, add_field_c_string, add_field_memory,
  add_field_string, add_field_fixed, add_padding, pad_rounds, add_field_fixed_length, get_counted,
  at_iterator, advance, get_field, get_field_memory, get_field_c_string, get_field_string,
  get_field_fixed, get_reset, clear, insert, copy,
}

-- The buffer has the allocated size, and iterator and fill level stay inside it in this order.
pub record IsValid (f : Fields) : Type 0 where
  pub storage : length f.buffer ≡ f.max_buffer_len
  pub small : f.max_buffer_len < 2 ^ 32
  pub used : f.current_buffer_len ≤ f.max_buffer_len
  pub unread : f.current_iterator ≤ f.current_buffer_len

-- The public methods with their arguments.
pub data Call : Type 0 where
  add_scalar : ℕ → ℕ → Call
  add_c_string : Bytes → Call
  add_memory : Bytes → ℕ → Call
  add_string : Bytes → Call
  add_fixed : Bytes → ℕ → Call
  add_fixed_length : Bytes → ℕ → ℕ → Call
  insert_data : Bytes → Call
  copy_data : ℕ → Call
  clear_all : Call
  reset : Call
  get_scalar : ℕ → Call
  get_c_string : Call
  get_memory : Call
  get_string : Call
  get_fixed : ℕ → Call

-- The object after a call, whether it returned or threw.
unfoldable pub after : Call → Fields → Fields
after (add_scalar width value) f = (add_field width value f).1
after (add_c_string memory) f = (add_field_c_string memory f).1
after (add_memory memory len) f = (add_field_memory memory len f).1
after (add_string value) f = (add_field_string value f).1
after (add_fixed value len) f = (add_field_fixed value len f).1
after (add_fixed_length value len pad) f = (add_field_fixed_length value len pad f).1
after (insert_data src) f = (insert src f).1
after (copy_data max_len) f = (copy max_len f).1
after clear_all f = clear f
after reset f = get_reset f
after (get_scalar width) f = (get_field width f).1
after get_c_string f = (get_field_c_string f).1
after get_memory f = (get_field_memory f).1
after get_string f = (get_field_string f).1
after (get_fixed len) f = (get_field_fixed len f).1

pub append-IsValid :
    (src : Bytes) (f : Fields)
    → IsValid f
    → f.current_buffer_len + length src ≤ f.max_buffer_len
    → IsValid (append src f)
append-IsValid src f v h = omega (arith, length-memcpy f.buffer f.current_buffer_len src)

copy_data_in-IsValid : (src : Bytes) (f : Fields) → IsValid f → IsValid (copy_data_in src f).1
unfolding copy_data_in
copy_data_in-IsValid src f v = ground (
  arith,
  append-IsValid ((length src % 256) ∷ []) f v,
  append-IsValid src (append ((length src % 256) ∷ []) f),
)

copy_data_in_fixed-IsValid :
    (src : Bytes) (f : Fields) → IsValid f → IsValid (copy_data_in_fixed src f).1
unfolding copy_data_in_fixed
copy_data_in_fixed-IsValid src f v = ground (arith, append-IsValid src f v)

add_padding-IsValid : (n pad : ℕ) (f : Fields) → IsValid f → IsValid (add_padding n pad f).1
unfolding add_padding
add_padding-IsValid zero pad f v = v
add_padding-IsValid (suc n) pad f v = ground (
  arith,
  copy_data_in_fixed-IsValid (pad ∷ []) f v,
  add_padding-IsValid n pad (copy_data_in_fixed (pad ∷ []) f).1,
)

get_counted-IsValid : (len : ℕ) (f : Fields) → IsValid f → IsValid (get_counted len f).1
unfolding get_counted
get_counted-IsValid len f v = ground arith

add_field_fixed_length-IsValid :
    (value : Bytes) (len pad : ℕ) (f : Fields)
    → IsValid f
    → IsValid (add_field_fixed_length value len pad f).1
unfolding add_field_fixed_length
add_field_fixed_length-IsValid value len pad f v =
    let fixed = copy_data_in_fixed value f in
    ground (
      arith,
      copy_data_in_fixed-IsValid (take len value) f v,
      copy_data_in_fixed-IsValid value f v,
      add_padding-IsValid (pad_rounds len (length value)) pad fixed.1,
    )

get_field_memory-IsValid : (f : Fields) → IsValid f → IsValid (get_field_memory f).1
unfolding get_field_memory
get_field_memory-IsValid f v =
    ground (arith, get_counted-IsValid (le_value (at_iterator 1 f)) (advance 1 f))

-- Every public method keeps the invariant, whatever its arguments, and whether it returns or throws.
pub after-IsValid : (c : Call) (f : Fields) → IsValid f → IsValid (after c f)
unfolding after
after-IsValid (add_scalar width value) f v =
    unfold add_field in
    ground (arith, append-IsValid (le_bytes width value) f v, length-le_bytes width value)
after-IsValid (add_c_string memory) f v =
    unfold add_field_c_string in copy_data_in-IsValid (c_string memory) f v
after-IsValid (add_memory memory len) f v =
    unfold add_field_memory in copy_data_in-IsValid (take len memory) f v
after-IsValid (add_string value) f v = unfold add_field_string in copy_data_in-IsValid value f v
after-IsValid (add_fixed value len) f v =
    unfold add_field_fixed in copy_data_in_fixed-IsValid value f v
after-IsValid (add_fixed_length value len pad) f v =
    add_field_fixed_length-IsValid value len pad f v
after-IsValid (insert_data src) f v =
    unfold insert clear get_reset in ground (arith, length-memcpy f.buffer 0 src)
after-IsValid (copy_data max_len) f v = unfold copy in ground arith
after-IsValid clear_all f v = unfold clear get_reset in ground arith
after-IsValid reset f v = unfold get_reset in ground arith
after-IsValid (get_scalar width) f v = unfold get_field in ground arith
after-IsValid get_c_string f v =
    unfold get_field_c_string in ground (arith, get_field_memory-IsValid f v)
after-IsValid get_memory f v = get_field_memory-IsValid f v
after-IsValid get_string f v =
    unfold get_field_string in
    ground (arith, get_counted-IsValid (le_value (at_iterator 1 f)) (advance 1 f))
after-IsValid (get_fixed len) f v = unfold get_field_fixed in ground arith
