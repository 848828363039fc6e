-- ===== src/Fields/Contents.antt =====
-- util_lib/fields: what a `fields` object holds, and what each call appends or takes.
use core_connect_binary.Base.{
  ℕ, zero, suc, ◌+◌, ◌≤◌, ◌≡◌, refl, sym, ap, [], ◌∷◌, ◌++◌, arith, length, Bytes, take-memcpy,
  length-take_le, take, drop, drop-drop,
}
use core_connect_binary.Fields.Defs.{Fields, append, at_iterator, advance}
use core_connect_binary.Fields.Invariant.{IsValid}

-- The bytes written so far, and those that the iterator has not passed.
abbrev pub contents : Fields → Bytes
contents f = take f.current_buffer_len f.buffer

abbrev pub unread : Fields → Bytes
unread f = drop f.current_iterator (contents f)

pub length-contents : (f : Fields) → IsValid f → length (contents f) ≡ f.current_buffer_len
length-contents f v = omega (arith, length-take_le {n = f.current_buffer_len} f.buffer)

pub contents-append :
    (src : Bytes) (f : Fields)
    → IsValid f
    → f.current_buffer_len + length src ≤ f.max_buffer_len
    → contents (append src f) ≡ contents f ++ src
contents-append src f v h = take-memcpy f.buffer f.current_buffer_len src (omega arith)

take-drop-take :
    (i n c : ℕ) (xs : Bytes) → i + n ≤ c → take n (drop i (take c xs)) ≡ take n (drop i xs)
take-drop-take zero zero c xs h = refl
take-drop-take zero (suc n) zero xs h = absurd (omega arith)
take-drop-take zero (suc n) (suc c) [] h = refl
take-drop-take zero (suc n) (suc c) (x ∷ xs) h =
    ap (◌∷◌ x) (take-drop-take zero n c xs (omega arith))
take-drop-take (suc i) n zero xs h = absurd (omega arith)
take-drop-take (suc i) n (suc c) [] h = refl
take-drop-take (suc i) n (suc c) (x ∷ xs) h = take-drop-take i n c xs (omega arith)

-- A read inside the written bytes sees the next unread ones.
pub at_iterator-unread :
    (n : ℕ) (f : Fields)
    → f.current_iterator + n ≤ f.current_buffer_len
    → at_iterator n f ≡ take n (unread f)
at_iterator-unread n f h = sym (take-drop-take f.current_iterator n f.current_buffer_len f.buffer h)

pub unread-advance : (n : ℕ) (f : Fields) → unread (advance n f) ≡ drop n (unread f)
unread-advance n f = sym (drop-drop f.current_iterator n (contents f))
