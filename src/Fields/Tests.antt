-- ===== src/Fields/Tests.antt =====
-- util_lib/fields on concrete buffers.
use core_connect_binary.Base.{◌≡◌, refl, arith, List, [], ◌∷◌, replicate, le_bytes}
use core_connect_binary.Fields.Defs.{Fields, returns, clear, get_reset}
use core_connect_binary.Fields.Invariant.{IsValid, after, add_string, after-IsValid}
use core_connect_binary.Fields.Contents.{contents}
use core_connect_binary.Fields.RoundTrip.{
  Item, scalar, text, fixed, AllFit, encoded_all, add_items, get_items, get_items-add_items,
}

abbrev empty_fields : Fields
empty_fields = record {
  max_buffer_len = 16;
  current_buffer_len = 0;
  current_iterator = 0;
  buffer = replicate 16 0;
}

empty_fields-IsValid : IsValid empty_fields
empty_fields-IsValid = record {
  storage = refl;
  small = omega arith;
  used = omega arith;
  unread = omega arith;
}

abbrev some_items : List Item
some_items = text (b'a' ∷ b'b' ∷ []) ∷ scalar 2 300 ∷ fixed (b'c' ∷ []) ∷ []

after-IsValid_example : IsValid (after (add_string (1 ∷ 2 ∷ 3 ∷ [])) empty_fields)
after-IsValid_example =
    after-IsValid (add_string (1 ∷ 2 ∷ 3 ∷ [])) empty_fields empty_fields-IsValid

some_items-AllFit : AllFit some_items
some_items-AllFit = (omega arith, (omega arith, ((omega arith, omega arith), tt)))

get_items-add_items_example :
    let (r, g) = add_items some_items (clear empty_fields) in
    (r ≡ returns tt)
    × (contents g ≡ encoded_all some_items)
    × ((get_items some_items (get_reset g)).0 ≡ returns some_items)
unfolding le_bytes
get_items-add_items_example =
    get_items-add_items some_items empty_fields empty_fields-IsValid some_items-AllFit (omega arith)
