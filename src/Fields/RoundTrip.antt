-- ===== src/Fields/RoundTrip.antt =====
-- util_lib/fields: items added to a `fields` object come back from its iterator.
use core_connect_binary.Base.{
  ℕ, suc, ◌+◌, ◌%◌, ◌^◌, ◌≤◌, ◌<◌, ◌≡◌, refl, sym, ap, ◌∙◌, List, [], ◌∷◌, ◌++◌, arith, length,
  Bytes, le_bytes, le_value, length-le_bytes, le_value-le_bytes, take, drop, length-append,
  append_assoc, append-nil, take-append_length, drop-append_length, length-drop, ltb-false,
}
use core_connect_binary.Fields.Defs.{
  Fields, Outcome, M, returns, append, add_field, copy_data_in, copy_data_in_fixed, get_counted,
  at_iterator, advance, get_field, get_field_string, get_field_fixed, get_reset, add_field_string,
  add_field_fixed, clear, ◌>>=◌, ◌>>◌,
}
use core_connect_binary.Fields.Contents.{
  contents, unread, contents-append, at_iterator-unread, unread-advance, length-contents,
}
use core_connect_binary.Fields.Invariant.{IsValid, append-IsValid}

-- What a caller adds: a value of a basic type of `width` bytes, a string with its length byte, or a
-- string without one.
pub data Item : Type 0 where
  scalar : ℕ → ℕ → Item
  text : Bytes → Item
  fixed : Bytes → Item

pub add_item : Item → M (Unit {0})
add_item (scalar width value) = add_field width value
add_item (text s) = add_field_string s
add_item (fixed s) = add_field_fixed s (length s)

abbrev returning : {A B : Type 0} → (A → B) → A → M B
returning g a f = (returns (g a), f)

-- Reading an item of the same kind, and for a fixed string the same length.
pub get_item : Item → M Item
get_item (scalar width value) = get_field width >>= returning (scalar width)
get_item (text s) = get_field_string >>= returning text
get_item (fixed s) = get_field_fixed (length s) >>= returning fixed

pub add_items : List Item → M (Unit {0})
add_items [] f = (returns tt, f)
add_items (i ∷ is) f = (add_item i >> add_items is) f

pub get_items : List Item → M (List Item)
get_items [] f = (returns [], f)
get_items (i ∷ is) f = (get_item i >>= λ j. get_items is >>= returning (◌∷◌ j)) f

-- The wire format of an item.
abbrev pub encoded : Item → Bytes
encoded (scalar width value) = le_bytes width value
encoded (text s) = length s ∷ s
encoded (fixed s) = s

abbrev pub encoded_all : List Item → Bytes
encoded_all [] = []
encoded_all (i ∷ is) = encoded i ++ encoded_all is

-- A number fits its width, a string has at most 255 bytes, and one with no length byte is not empty.
abbrev pub Fits : Item → Type 0
Fits (scalar width value) = value < 256 ^ width
Fits (text s) = length s ≤ 255
Fits (fixed s) = (0 < length s) × (length s ≤ 255)

abbrev pub AllFit : List Item → Type 0
AllFit [] = Unit
AllFit (i ∷ is) = Fits i × AllFit is

-- The call returned and appended `bytes`, and left the rest of the object alone.
record Appends (f : Fields) (bytes : Bytes) (out : Outcome (Unit {0}) × Fields) : Type 0 where
  done : out.0 ≡ returns tt
  valid : IsValid out.1
  holds : contents out.1 ≡ contents f ++ bytes
  level : out.1.current_buffer_len ≡ f.current_buffer_len + length bytes
  limit : out.1.max_buffer_len ≡ f.max_buffer_len

append-Appends :
    (src : Bytes) (f : Fields)
    → IsValid f
    → f.current_buffer_len + length src ≤ f.max_buffer_len
    → Appends f src (returns tt, append src f)
append-Appends src f v h = record {
  done = refl;
  valid = append-IsValid src f v h;
  holds = contents-append src f v h;
  level = refl;
  limit = refl;
}

Appends-trans :
    {f : Fields} {a b : Bytes} {out out' : Outcome (Unit {0}) × Fields}
    → Appends f a out
    → Appends out.1 b out'
    → Appends f (a ++ b) out'
Appends-trans {f} {a} {b} p q = record {
  done = q.done;
  valid = q.valid;
  holds = q.holds ∙ ap (λ c. c ++ b) p.holds ∙ append_assoc (contents f) a b;
  level = omega (arith, p.level, q.level, length-append a b);
  limit = q.limit ∙ p.limit;
}

copy_data_in-Appends :
    (s : Bytes) (f : Fields)
    → IsValid f
    → length s ≤ 255
    → f.current_buffer_len + suc (length s) ≤ f.max_buffer_len
    → Appends f (length s ∷ s) (copy_data_in s f)
unfolding copy_data_in
copy_data_in-Appends s f v small h =
    let len : length s % 256 ≡ length s = omega arith in
    let head = append-Appends (length s ∷ []) f v (omega arith) in
    rw
      (
        ltb-false {a = 255} small,
        ltb-false {a = f.max_buffer_len} {b = f.current_buffer_len + length s + 1} (omega arith),
        len,
      )
      (Appends-trans head (append-Appends s (append (length s ∷ []) f) head.valid (omega arith)))

add_item-Appends :
    (i : Item) (f : Fields)
    → IsValid f
    → Fits i
    → f.current_buffer_len + length (encoded i) ≤ f.max_buffer_len
    → Appends f (encoded i) (add_item i f)
unfolding add_item
add_item-Appends (scalar width value) f v fits h =
    unfold add_field in
    ground (arith, append-Appends (le_bytes width value) f v, length-le_bytes width value)
add_item-Appends (text s) f v fits h = unfold add_field_string in copy_data_in-Appends s f v fits h
add_item-Appends (fixed s) f v fits h =
    unfold add_field_fixed copy_data_in_fixed in ground (arith, append-Appends s f v)

-- After a call that returned, the sequence goes on with the next one.
>>-returns : (m k : M (Unit {0})) (f : Fields) → (m f).0 ≡ returns tt → (m >> k) f ≡ k (m f).1
>>-returns m k f e = rw (e, ◌>>=◌)

add_items-Appends :
    (is : List Item) (f : Fields)
    → IsValid f
    → AllFit is
    → f.current_buffer_len + length (encoded_all is) ≤ f.max_buffer_len
    → Appends f (encoded_all is) (add_items is f)
unfolding add_items
add_items-Appends [] f v fits h = record {
  done = refl;
  valid = v;
  holds = sym (append-nil (contents f));
  level = omega arith;
  limit = refl;
}
add_items-Appends (i ∷ is) f v fits h =
    let split = length-append (encoded i) (encoded_all is) in
    let first = add_item-Appends i f v fits.0 (omega arith) in
    rw (>>-returns (add_item i) (add_items is) f first.done) (
      Appends-trans first (
        add_items-Appends is (add_item i f).1 first.valid fits.1
          (omega (arith, first.level, first.limit))))

-- Where `src` is what the iterator sees next, a read of its length `n` takes exactly it.
record Next (f : Fields) (n : ℕ) (src rest : Bytes) : Type 0 where
  inside : f.current_iterator + n ≤ f.current_buffer_len
  seen : at_iterator n f ≡ src
  left : unread (advance n f) ≡ rest
  valid : IsValid (advance n f)

next_inside :
    (f : Fields) (src rest : Bytes)
    → IsValid f
    → unread f ≡ src ++ rest
    → f.current_iterator + length src ≤ f.current_buffer_len
next_inside f src rest v e = omega (
  arith,
  ap length e,
  length-drop f.current_iterator (contents f),
  length-contents f v,
  length-append src rest,
)

next :
    (f : Fields) (n : ℕ) (src rest : Bytes)
    → IsValid f
    → length src ≡ n
    → unread f ≡ src ++ rest
    → Next f n src rest
next f n src rest v len e =
    let inside : f.current_iterator + n ≤ f.current_buffer_len =
      omega (arith, next_inside f src rest v e) in
    record {
      inside = inside;
      seen =
          at_iterator-unread n f inside ∙ ap (take n) e ∙ rw (← len) (take-append_length src rest);
      left = unread-advance n f ∙ ap (drop n) e ∙ rw (← len) (drop-append_length src rest);
      valid = omega (arith, v, inside);
    }

-- The read returned `a`, and the iterator stands before `rest` in the same contents.
record Reads {A : Type 0} (f : Fields) (a : A) (rest : Bytes) (out : Outcome A × Fields)
    : Type 0 where
  done : out.0 ≡ returns a
  left : unread out.1 ≡ rest
  valid : IsValid out.1

get_field-Reads :
    (width value : ℕ) (f : Fields) (rest : Bytes)
    → IsValid f
    → value < 256 ^ width
    → unread f ≡ le_bytes width value ++ rest
    → Reads f value rest (get_field width f)
unfolding get_field
get_field-Reads width value f rest v fits e =
    let n = next f width (le_bytes width value) rest v (length-le_bytes width value) e in
    ground
      (arith, n.inside, n.left, n.valid, ap le_value n.seen, le_value-le_bytes width value fits)

get_string-Reads :
    (s : Bytes) (f : Fields) (rest : Bytes)
    → IsValid f
    → unread f ≡ length s ∷ (s ++ rest)
    → Reads f s rest (get_field_string f)
unfolding get_field_string get_counted
get_string-Reads s f rest v e =
    let n = next f 1 (length s ∷ []) (s ++ rest) v refl e in
    let m = next (advance 1 f) (length s) s rest n.valid refl n.left in
    let len : le_value (at_iterator 1 f) ≡ length s =
      ap le_value n.seen ∙ unfold le_value in omega arith in
    rw len (ground (arith, n.inside, m.inside, m.seen, m.left, m.valid))

get_fixed-Reads :
    (s : Bytes) (f : Fields) (rest : Bytes)
    → IsValid f
    → (0 < length s) × (length s ≤ 255)
    → unread f ≡ s ++ rest
    → Reads f s rest (get_field_fixed (length s) f)
unfolding get_field_fixed
get_fixed-Reads s f rest v fits e =
    let n = next f (length s) s rest v refl e in ground (arith, n.inside, n.seen, n.left, n.valid)

-- The continuation of a read that returned.
>>=-Reads :
    {A B : Type 0} (m : M A) (k : A → M B) (f : Fields) {a : A} {b : B} {mid rest : Bytes}
    → Reads f a mid (m f)
    → Reads (m f).1 b rest (k a (m f).1)
    → Reads f b rest ((m >>= k) f)
>>=-Reads m k f r q = rw (r.done, ◌>>=◌) (record { done = q.done; left = q.left; valid = q.valid })

get_item-Reads :
    (i : Item) (f : Fields) (rest : Bytes)
    → IsValid f
    → Fits i
    → unread f ≡ encoded i ++ rest
    → Reads f i rest (get_item i f)
unfolding get_item
get_item-Reads (scalar width value) f rest v fits e =
    let r = get_field-Reads width value f rest v fits e in
    >>=-Reads (get_field width) (returning (scalar width)) f r
      (record { done = refl; left = r.left; valid = r.valid })
get_item-Reads (text s) f rest v fits e =
    let r = get_string-Reads s f rest v e in
    >>=-Reads get_field_string (returning text) f r
      (record { done = refl; left = r.left; valid = r.valid })
get_item-Reads (fixed s) f rest v fits e =
    let r = get_fixed-Reads s f rest v fits e in
    >>=-Reads (get_field_fixed (length s)) (returning fixed) f r
      (record { done = refl; left = r.left; valid = r.valid })

get_items-Reads :
    (is : List Item) (f : Fields)
    → IsValid f
    → AllFit is
    → unread f ≡ encoded_all is
    → Reads f is [] (get_items is f)
unfolding get_items
get_items-Reads [] f v fits e = record { done = refl; left = e; valid = v }
get_items-Reads (i ∷ is) f v fits e =
    let one = get_item-Reads i f (encoded_all is) v fits.0 e in
    let all = get_items-Reads is (get_item i f).1 one.valid fits.1 one.left in
    >>=-Reads (get_item i) (λ j. get_items is >>= returning (◌∷◌ j)) f one
      (>>=-Reads (get_items is) (returning (◌∷◌ i)) (get_item i f).1 all
        (record { done = refl; left = all.left; valid = all.valid }))

-- Items that fit, and whose wire format fits in the buffer, are all added to a cleared object; it
-- then holds their wire format, and reading items of the same kinds from its start returns them.
pub get_items-add_items :
    (is : List Item) (f : Fields)
    → IsValid f
    → AllFit is
    → length (encoded_all is) ≤ f.max_buffer_len
    → let (r, g) = add_items is (clear f) in
      (r ≡ returns tt)
      × (contents g ≡ encoded_all is)
      × ((get_items is (get_reset g)).0 ≡ returns is)
unfolding clear get_reset
get_items-add_items is f v fits h =
    let empty = record f { current_buffer_len = 0; current_iterator = 0 } in
    let w = add_items-Appends is empty (omega (arith, v)) fits (omega arith) in
    let g = (add_items is empty).1 in
    let r =
      get_items-Reads is (record g { current_iterator = 0 }) (omega (arith, w.valid)) fits
        w.holds in
    (w.done, w.holds, r.done)
