-- ===== src/Client/Fields.antt =====
-- src/binary_gateway_load_test_client.cpp: the bytes that a JSON document becomes.
use Prim.Native.String.{String}
use core_connect_binary.Base.{
  ℕ, zero, suc, ◌+◌, ◌-◌, ◌≤◌, ◌≡◌, refl, sym, ap, ap₂, ◌∙◌, some, List, [], ◌∷◌, ◌++◌,
  append_assoc, append-nil, arith, take, length, replicate, length-append, length-replicate,
  take-append_length, Bool-cases, inl, inr, ◌==◌, Bytes, memcpy, c_string, le_bytes,
  length-le_bytes,
}
use core_connect_binary.Client.Json.{Json}
use core_connect_binary.Client.Structures.{
  Kind, two_bytes, one_byte, text, eight_bytes, kind, width, strncpy_bytes, copied, write_members,
  structure,
}

abbrev zeros : ℕ → Bytes
zeros n = replicate n 0

zeros_add : (m n : ℕ) → zeros m ++ zeros n ≡ zeros (m + n)
zeros_add zero n = ap zeros (omega arith)
zeros_add (suc m) n = ap (λ l. 0 ∷ l) (zeros_add m n) ∙ ap zeros {x = suc (m + n)} (omega arith)

-- A copy to the end of a prefix goes to the front of what follows.
memcpy-append :
    (pre rest src : Bytes) → memcpy (pre ++ rest) (length pre) src ≡ pre ++ memcpy rest 0 src
unfolding memcpy
memcpy-append [] rest src = refl
memcpy-append (b ∷ pre) rest [] = refl
memcpy-append (b ∷ pre) rest (x ∷ src) = ap (λ l. b ∷ l) (memcpy-append pre rest (x ∷ src))

memcpy-zeros :
    (n : ℕ) (src : Bytes) → length src ≤ n → memcpy (zeros n) 0 src ≡ src ++ zeros (n - length src)
unfolding memcpy
memcpy-zeros n [] h = ap zeros (omega arith)
memcpy-zeros zero (x ∷ src) h = absurd (omega (arith, h))
memcpy-zeros (suc n) (x ∷ src) h =
    ap (λ l. x ∷ l)
      (memcpy-zeros n src (omega (arith, h))
        ∙ ap (λ d. src ++ zeros d) {y = suc n - suc (length src)} (omega arith))

length-c_string : (s : Bytes) → length (c_string s) ≤ length s
unfolding c_string
length-c_string [] = omega arith
length-c_string (c ∷ s) = elim (Bool-cases (c == 0)) [
  | inl e ↦ rw e (omega arith)
  | inr e ↦ rw e (omega (arith, length-c_string s))
]

-- A text with NULs behind it, cut to a width that it fits.
take-padded :
    (n m : ℕ) (s : Bytes)
    → length s ≤ n
    → n ≤ length s + m
    → take n (s ++ zeros m) ≡ s ++ zeros (n - length s)
take-padded n m [] h g = take_zeros n m (omega (arith, g)) ∙ ap zeros (omega arith)
  where
    take_zeros : (n m : ℕ) → n ≤ m → take n (zeros m) ≡ zeros n
    take_zeros zero m h = refl
    take_zeros (suc n) zero h = absurd (omega (arith, h))
    take_zeros (suc n) (suc m) h = ap (λ l. 0 ∷ l) (take_zeros n m (omega (arith, h)))
take-padded zero m (x ∷ s) h g = absurd (omega (arith, h))
take-padded (suc n) m (x ∷ s) h g =
    ap (λ l. x ∷ l)
      (take-padded n m s (omega (arith, h)) (omega (arith, g))
        ∙ ap (λ d. s ++ zeros d) {y = suc n - suc (length s)} (omega arith))

module _ {D V : Type 0} (j : Json D V) where
  -- The field of a message: a little-endian number of the width, or 16 bytes of text.
  abbrev pub field : Kind → V → Bytes
  field two_bytes v = le_bytes 2 (j.get_uint v)
  field one_byte v = le_bytes 1 (j.get_uint v)
  field text v = take 16 (c_string (j.get_string v) ++ zeros 16)
  field eight_bytes v = le_bytes 8 (j.get_uint64 v)

  abbrev pub fields : List (String × V) → Bytes
  fields [] = []
  fields ((name, v) ∷ ms) = field (kind name) v ++ fields ms

  abbrev pub total : List (String × V) → ℕ
  total [] = 0
  total ((name, v) ∷ ms) = width (kind name) + total ms

  -- No text is longer than its field.
  abbrev pub IsShort : Kind → V → Type 0
  IsShort two_bytes v = Unit
  IsShort one_byte v = Unit
  IsShort text v = length (j.get_string v) ≤ 16
  IsShort eight_bytes v = Unit

  abbrev pub AllShort : List (String × V) → Type 0
  AllShort [] = Unit
  AllShort ((name, v) ∷ ms) = IsShort (kind name) v × AllShort ms

  -- What is copied, and the NULs that were there before.
  padded-field :
      (t : Kind) (v : V)
      → IsShort t v
      → (length (copied j t v) ≤ width t)
        × (copied j t v ++ zeros (width t - length (copied j t v)) ≡ field t v)
  unfolding copied
  padded-field two_bytes v h =
      let n = length-le_bytes 2 (j.get_uint v) in
      (
        omega (arith, n),
        ap (λ d. le_bytes 2 (j.get_uint v) ++ zeros d) {y = 0} (omega (arith, n)) ∙ append-nil _,
      )
  padded-field one_byte v h =
      let n = length-le_bytes 1 (j.get_uint v) in
      (
        omega (arith, n),
        ap (λ d. le_bytes 1 (j.get_uint v) ++ zeros d) {y = 0} (omega (arith, n)) ∙ append-nil _,
      )
  padded-field eight_bytes v h =
      let n = length-le_bytes 8 (j.get_uint64 v) in
      (
        omega (arith, n),
        ap (λ d. le_bytes 8 (j.get_uint64 v) ++ zeros d) {y = 0} (omega (arith, n)) ∙ append-nil _,
      )
  padded-field text v h =
      let s = j.get_string v in
      let c = c_string s in
      let short = length-c_string s in
      let cut : strncpy_bytes s ≡ c ++ zeros (length s - length c) =
        take-padded (length s) (length s) c short (omega arith) in
      let n : length (strncpy_bytes s) ≡ length s =
        ap length cut
        ∙ length-append c (zeros (length s - length c))
        ∙ omega (arith, short, length-replicate {A = ℕ} (length s - length c) 0) in
      (
        omega (arith, n, h),
        ap₂ (λ a d. a ++ zeros (16 - d)) cut n
            ∙ append_assoc c (zeros (length s - length c)) (zeros (16 - length s))
            ∙ ap (λ z. c ++ z) (zeros_add (length s - length c) (16 - length s))
            ∙ ap (λ d. c ++ zeros d) {y = 16 - length c} (omega (arith, short, h))
            ∙ sym (take-padded 16 16 c (omega (arith, short, h)) (omega arith)),
      )

  -- A member goes behind what was written, in front of NULs.
  memcpy-field :
      (t : Kind) (v : V) (pre : Bytes) (room : ℕ)
      → IsShort t v
      → width t ≤ room
      → memcpy (pre ++ zeros room) (length pre) (copied j t v)
        ≡ (pre ++ field t v) ++ zeros (room - width t)
  memcpy-field t v pre room h fits =
      let (n, e) = padded-field t v h in
      let src = copied j t v in
      let gap = width t - length src in
      memcpy-append pre (zeros room) src
      ∙ ap (λ l. pre ++ l)
          (memcpy-zeros room src (omega (arith, n, fits))
            ∙ ap (λ d. src ++ zeros d) {y = gap + (room - width t)} (omega (arith, n, fits))
            ∙ ap (λ z. src ++ z) (sym (zeros_add gap (room - width t)))
            ∙ sym (append_assoc src (zeros gap) (zeros (room - width t)))
            ∙ ap (λ l. l ++ zeros (room - width t)) e)
      ∙ sym (append_assoc pre (field t v) (zeros (room - width t)))

  length-field : (t : Kind) (v : V) → IsShort t v → length (field t v) ≡ width t
  length-field t v h =
      let (n, e) = padded-field t v h in
      let gap = width t - length (copied j t v) in
      ap length (sym e)
      ∙ length-append (copied j t v) (zeros gap)
      ∙ omega (arith, n, length-replicate {A = ℕ} gap 0)

  length-fields : (ms : List (String × V)) → AllShort ms → length (fields ms) ≡ total ms
  length-fields [] h = refl
  length-fields ((name, v) ∷ ms) h =
      length-append (field (kind name) v) (fields ms)
      ∙ ap₂ (λ a b. a + b) (length-field (kind name) v h.0) (length-fields ms h.1)

  write_members-fields :
      (ms : List (String × V)) (pre : Bytes) (room : ℕ)
      → AllShort ms
      → total ms ≤ room
      → write_members j ms (pre ++ zeros room) (length pre)
        ≡ ((pre ++ fields ms) ++ zeros (room - total ms), length pre + total ms)
  unfolding write_members
  write_members-fields [] pre room h fits =
      ap₂ (λ a b. (a, b)) (ap₂ (λ a d. a ++ zeros d) (sym (append-nil pre)) (omega arith))
        (omega arith)
  write_members-fields ((name, v) ∷ ms) pre room h fits =
      let t = kind name in
      let next = pre ++ field t v in
      let left = room - width t in
      let n : length next ≡ length pre + width t =
        length-append pre (field t v) ∙ ap (λ d. length pre + d) (length-field t v h.0) in
      let less : left - total ms ≡ room - (width t + total ms) = omega arith in
      ap₂ (λ b o. write_members j ms b o) (memcpy-field t v pre room h.0 (omega (arith, fits)))
        (sym n)
      ∙ write_members-fields ms next left h.1 (omega (arith, fits))
      ∙ ap₂ (λ a b. (a, b))
          (ap₂ (λ a d. a ++ zeros d) (append_assoc pre (field t v) (fields ms)) less)
          (omega (arith, n))

  -- For a document whose texts for the four text fields have at most 16 bytes and whose fields take at
  -- most the 2048 bytes of the buffer: the loop writes the fields one behind the other in the order of the
  -- members, numbers as little-endian bytes of their widths, texts filled up with NULs to 16 bytes, and
  -- the number of bytes to send is the sum of the widths.
  pub structure-fields :
      (doc : D)
      → AllShort (j.members doc)
      → total (j.members doc) ≤ 2048
      → (take (structure j (some doc)).1 (structure j (some doc)).0 ≡ fields (j.members doc))
        × ((structure j (some doc)).1 ≡ total (j.members doc))
  unfolding structure
  structure-fields doc h fits =
      let ms = j.members doc in
      let e : structure j (some doc) ≡ (fields ms ++ zeros (2048 - total ms), total ms) =
        write_members-fields ms [] 2048 h fits
        ∙ ap (λ k. (fields ms ++ zeros (2048 - total ms), k)) {y = total ms} (omega arith) in
      let n = length-fields ms h in
      (
        ap (λ r. take r.1 r.0) e
            ∙ ap (λ d. take d (fields ms ++ zeros (2048 - total ms))) (sym n)
            ∙ take-append_length (fields ms) (zeros (2048 - total ms)),
        ap (λ r. r.1) e,
      )
