-- ===== src/Logger/Counts.antt =====
-- util_lib/logger/src/logger.cpp: how often a buffer occurs in the pools, and their contents.
use core_connect_binary.Base.{
  ℕ, ◌+◌, ◌≡◌, refl, ap, ◌∙◌, List, [], ◌∷◌, ◌++◌, ◌==◌, if◌then◌else◌, arith,
}
use core_connect_binary.Logger.Pool.{PoolEntry, contents, buffers, back_first}

abbrev pub count : ℕ → List ℕ → ℕ
count x [] = 0
count x (y ∷ ys) = (if x == y then 1 else 0) + count x ys

pub count-append : (x : ℕ) (ys zs : List ℕ) → count x (ys ++ zs) ≡ count x ys + count x zs
count-append x [] zs = omega arith
count-append x (y ∷ ys) zs =
    ap (λ n. (if x == y then 1 else 0) + n) (count-append x ys zs) ∙ omega arith

pub count-back_first :
    (x : ℕ) (ys zs : List ℕ) → count x (back_first ys zs) ≡ count x ys + count x zs
count-back_first x [] zs = omega arith
count-back_first x (y ∷ ys) zs = count-back_first x ys (y ∷ zs) ∙ omega arith

pub contents-append : (es fs : List PoolEntry) → contents (es ++ fs) ≡ contents es ++ contents fs
contents-append [] fs = refl
contents-append (e ∷ es) fs = ap (λ l. e.content ∷ l) (contents-append es fs)

pub buffers-append : (es fs : List PoolEntry) → buffers (es ++ fs) ≡ buffers es ++ buffers fs
buffers-append [] fs = refl
buffers-append (e ∷ es) fs = ap (λ l. e.buf ∷ l) (buffers-append es fs)
