-- ===== src/FileConfig/Order.antt =====
-- util_lib/file_config/src/file_config.cpp: the order of the keys.
use core_connect_binary.Base.{
  ℕ, suc, ◌≡◌, refl, sym, ap, ◌∙◌, inl, inr, true, false, List, [], ◌∷◌, ◌++◌, ==_iff, Bool-cases,
  if◌then◌else◌, arith, take, drop, ◌-◌, Bytes,
}
use core_connect_binary.FileConfig.Defs.{less, insert, lower_bound, upper_bound}

less_self : (a : Bytes) → less a a ≡ false
unfolding less
less_self [] = refl
less_self (x ∷ a) = rw ((==_iff x x).1 refl) (less_self a)

-- If neither `c` is before `b` nor `b` before `a`, `c` is not before `a`.
pub less_trans : (a b c : Bytes) → less b a ≡ false → less c b ≡ false → less c a ≡ false
unfolding less
less_trans [] b c h k = refl
less_trans (x ∷ a) [] c h k = absurd (ground (arith, h))
less_trans (x ∷ a) (y ∷ b) [] h k = absurd (ground (arith, k))
less_trans (x ∷ a) (y ∷ b) (z ∷ c) h k = ground (arith, less_trans a b c)

pub less_asym : (a b : Bytes) → less a b ≡ true → less b a ≡ false
unfolding less
less_asym a [] h = absurd (ground (arith, h))
less_asym [] (y ∷ b) h = refl
less_asym (x ∷ a) (y ∷ b) h = ground (arith, less_asym a b)

abbrev pub Entries : Type 0
Entries = List (Bytes × Bytes)

-- No key of the list is before `key`.
abbrev pub AllFrom : Bytes → Entries → Type 0
AllFrom key [] = Unit
AllFrom key (e ∷ es) = (less e.0 key ≡ false) × AllFrom key es

abbrev pub Sorted : Entries → Type 0
Sorted [] = Unit
Sorted (e ∷ es) = AllFrom e.0 es × Sorted es

-- The entries whose key is neither before nor behind `key`, in their order.
abbrev pub matching : Bytes → Entries → Entries
matching key [] = []
matching key (e ∷ es) =
    let rest = matching key es in
    if less e.0 key then rest else if less key e.0 then rest else e ∷ rest

pub AllFrom-before : (a b : Bytes) (es : Entries) → less b a ≡ false → AllFrom b es → AllFrom a es
AllFrom-before a b [] h f = tt
AllFrom-before a b (e ∷ es) h f = (less_trans a b e.0 h f.0, AllFrom-before a b es h f.1)

pub matching-none :
    (key k : Bytes) (es : Entries) → AllFrom k es → less key k ≡ true → matching key es ≡ []
matching-none key k [] f h = refl
matching-none key k (e ∷ es) f h = elim (Bool-cases (less key e.0)) [
  | inl e' ↦ rw (less_asym key e.0 e', e') (matching-none key k es f.1 h)
  | inr e' ↦ absurd (ground (arith, h, less_trans k e.0 key f.0 e'))
]

pub lower_bound-zero : (key : Bytes) (es : Entries) → AllFrom key es → lower_bound key es ≡ 0
unfolding lower_bound
lower_bound-zero key [] f = refl
lower_bound-zero key (e ∷ es) f = rw f.0 refl

suc-sub : (m n : ℕ) → suc m - suc n ≡ m - n
suc-sub m n = omega arith

sub-zero : (n : ℕ) → n - 0 ≡ n
sub-zero n = omega arith

-- In a sorted list, the entries from `lower_bound` to `upper_bound` of a key are the entries whose key
-- is neither before nor behind it, all of them and in their order.
pub bounds-matching :
    (key : Bytes) (es : Entries)
    → Sorted es
    → take (upper_bound key es - lower_bound key es) (drop (lower_bound key es) es)
      ≡ matching key es
unfolding lower_bound upper_bound
bounds-matching key [] s = refl
bounds-matching key (e ∷ es) s = elim (Bool-cases (less e.0 key)) [
  | inl first ↦
      rw (first, less_asym e.0 key first, suc-sub (upper_bound key es) (lower_bound key es))
        (bounds-matching key es s.1)
  | inr from ↦ elim (Bool-cases (less key e.0)) [
    | inl past ↦ rw (from, past, matching-none key e.0 es s.0 past) refl
    | inr here ↦
        let zero_lower = lower_bound-zero key es (AllFrom-before key e.0 es from s.0) in
        let rest = bounds-matching key es s.1 in
        let none_skipped : take (upper_bound key es - lower_bound key es)
              (drop (lower_bound key es) es)
            ≡ take (upper_bound key es) es =
          ap (λ l. take (upper_bound key es - l) (drop l es)) zero_lower
          ∙ ap (λ n. take n es) (sub-zero (upper_bound key es)) in
        rw (from, here, sub-zero (suc (upper_bound key es)))
          (ap (λ l. e ∷ l) (sym none_skipped ∙ rest))
  ]
]

AllFrom-insert :
    (k key value : Bytes) (es : Entries)
    → less key k ≡ false
    → AllFrom k es
    → AllFrom k (insert key value es)
unfolding insert
AllFrom-insert k key value [] h f = (h, tt)
AllFrom-insert k key value (e ∷ es) h f = elim (Bool-cases (less key e.0)) [
  | inl b ↦ rw b (h, f)
  | inr b ↦ rw b (f.0, AllFrom-insert k key value es h f.1)
]

-- On a sorted list, the insertion of an entry keeps the list sorted, and a lookup of the entry's key
-- finds what it found before, and then the new entry.
pub insert-Sorted :
    (key value : Bytes) (es : Entries)
    → Sorted es
    → Sorted (insert key value es)
      × (matching key (insert key value es) ≡ matching key es ++ (key, value) ∷ [])
unfolding insert
insert-Sorted key value [] s = ((tt, tt), rw (less_self key) refl)
insert-Sorted key value (e ∷ es) s = elim (Bool-cases (less key e.0)) [
  | inl b ↦
      rw (b, less_asym key e.0 b, less_self key, matching-none key e.0 es s.0 b, b)
        (((refl, AllFrom-before key e.0 es (less_asym key e.0 b) s.0), s), refl)
  | inr b ↦
      let (sorted, found) = insert-Sorted key value es s.1 in
      rw b (
        (AllFrom-insert e.0 key value es b s.0, sorted),
        elim (Bool-cases (less e.0 key)) [
          | inl z ↦ rw z found
          | inr z ↦ rw (z, b) (ap (λ l. e ∷ l) found)
        ],
      )
]
