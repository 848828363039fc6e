-- ===== src/Tcp/WriteData.antt =====
-- util_lib/tcp/src/tcp_connection.cpp: `write_data` over a system whose `write` does what POSIX says.
use core_connect_binary.Base.{
  ℕ, zero, suc, ◌+◌, ◌^◌, ◌≤◌, ◌<◌, ◌≡◌, refl, sym, ap, ◌∙◌, inl, inr, true, false, Option, some,
  [], ◌∷◌, ◌++◌, arith, append-nil, append_assoc, length-drop, append-take-drop_add, Bool-cases,
  length, take, drop, Bytes, ==_false, ◌==◌,
}
use core_connect_binary.Base.Int.{ℤ, pos, negsuc, pos_part, ltb_ℤ}
use core_connect_binary.Kernel.{Kernel, is_eintr, is_eagain, is_minus_one}
use core_connect_binary.Tcp.Connection.{
  TcpConnection, Written, write_turn, WriteTurn, wrote, interrupted, failed, write_loop, write_data,
}

-- The documented behaviour of `write`: `sent w` is all that has been written so far. A positive
-- result counts the bytes that were taken from the front, at most all of them; another one takes none;
-- and the calls are not interrupted without end, `patience` being a bound on the interruptions to come.
pub record IsPosix {W : Type 0} (k : Kernel W) : Type 0 where
  pub sent : W → Bytes
  pub patience : W → ℕ
  pub taken :
      (fd : ℤ) (src : Bytes) (w : W)
      → ltb_ℤ (pos 0) (k.write_fd fd src w).0 ≡ true
      → pos_part (k.write_fd fd src w).0 ≤ length src
        × sent (k.write_fd fd src w).1 ≡ sent w ++ take (pos_part (k.write_fd fd src w).0) src
        × patience (k.write_fd fd src w).1 ≤ patience w
  pub refused :
      (fd : ℤ) (src : Bytes) (w : W)
      → ltb_ℤ (pos 0) (k.write_fd fd src w).0 ≡ false
      → sent (k.write_fd fd src w).1 ≡ sent w
        × (is_eintr (k.errno (k.write_fd fd src w).1) ≡ true
            → patience (k.write_fd fd src w).1 < patience w)

pos_part-positive : (n : ℤ) → ltb_ℤ (pos 0) n ≡ true → 0 < pos_part n
pos_part-positive (pos n) h = ground arith
pos_part-positive (negsuc n) h = ground arith

module _ {W : Type 0} (k : Kernel W) (p : IsPosix k) where
  -- The loop wrote the first `count` bytes of `src`, all of them exactly if it reports no error.
  pub record Delivers (src : Bytes) (before : ℕ) (c : TcpConnection) (w : W) (r : Written W)
      : Type 0 where
    pub count : ℕ
    pub within : count ≤ length src
    pub counted : r.actual_len ≡ before + count
    pub traffic : p.sent r.world ≡ p.sent w ++ take count src
    pub connection_lem : r.connection ≡ record c { bytes_txed = c.bytes_txed + count }
    pub ok_all : (r.ret ≡ 0) → count ≡ length src
    pub all_ok : count ≡ length src → r.ret ≡ 0

  -- The three ways a round goes, with what the system promises of each.
  abbrev pub TurnOf : Bytes → W → W → WriteTurn → Type 0
  TurnOf src w w1 (wrote n) =
      (0 < n)
      × (n ≤ length src)
      × (p.sent w1 ≡ p.sent w ++ take n src)
      × (p.patience w1 ≤ p.patience w)
  TurnOf src w w1 interrupted = (p.sent w1 ≡ p.sent w) × (p.patience w1 < p.patience w)
  TurnOf src w w1 (failed error) = (0 < error) × (p.sent w1 ≡ p.sent w)

  turn-TurnOf :
      (fd : ℤ) (src : Bytes) (w : W)
      → TurnOf src w
          (k.write_fd fd src w).1
          (write_turn (k.write_fd fd src w).0 (k.errno (k.write_fd fd src w).1))
  unfolding write_turn
  turn-TurnOf fd src w = elim (Bool-cases (ltb_ℤ (pos 0) (k.write_fd fd src w).0)) [
    | inl some_taken ↦
        let (within, traffic, patient) = p.taken fd src w some_taken in
        rw some_taken
          (pos_part-positive (k.write_fd fd src w).0 some_taken, within, traffic, patient)
    | inr none_taken ↦
        let (traffic, impatient) = p.refused fd src w none_taken in
        rw none_taken (elim (Bool-cases (is_eintr (k.errno (k.write_fd fd src w).1))) [
          | inl intr ↦ rw intr (traffic, impatient intr)
          | inr not_intr ↦
              rw not_intr (elim (Bool-cases (is_eagain (k.errno (k.write_fd fd src w).1))) [
                | inl block ↦ rw block (omega arith, traffic)
                | inr not_block ↦ rw not_block (omega arith, traffic)
              ])
        ])
  ]

  abbrev pub Done :
      (src : Bytes) (before : ℕ) (c : TcpConnection) (w : W) → Option (Written W) → Type 0
  Done src before c w o = (r : Written W) × (o ≡ some r) × Delivers src before c w r

  -- What is delivered after `n` bytes is delivered after none, with these in front.
  prepend :
      (n : ℕ) (src : Bytes) (before : ℕ) (c : TcpConnection) (w w1 : W) (r : Written W)
      → n ≤ length src
      → p.sent w1 ≡ p.sent w ++ take n src
      → Delivers (drop n src) (before + n) (record c { bytes_txed = c.bytes_txed + n }) w1 r
      → Delivers src before c w r
  prepend n src before c w w1 r within traffic d =
      let rest = length-drop n src in
      let some_left = d.within in
      record {
        count = n + d.count;
        within = omega (arith, within, rest, some_left);
        counted = d.counted ∙ omega arith;
        traffic =
            d.traffic
            ∙ ap (λ s. s ++ take d.count (drop n src)) traffic
            ∙ append_assoc (p.sent w) (take n src) (take d.count (drop n src))
            ∙ ap (λ s. p.sent w ++ s) (sym (append-take-drop_add n d.count src));
        connection_lem =
            d.connection_lem
            ∙ ap (λ m. record c { bytes_txed = m }) {y = c.bytes_txed + (n + d.count)}
                (omega arith);
        ok_all = λ ok. let all = d.ok_all ok in omega (arith, all, rest, within);
        all_ok = λ all. d.all_ok (omega (arith, all, rest, within));
      }

  -- The loop, with fuel for every byte and every interruption, ends and delivers.
  write_loop-Delivers :
      (fuel : ℕ) (src : Bytes) (before : ℕ) (c : TcpConnection) (w : W)
      → length src + p.patience w ≤ fuel
      → Done src before c w (write_loop k fuel src before c w)
  unfolding write_loop
  write_loop-Delivers fuel [] before c w enough = (
    _,
    refl,
    record {
      count = 0;
      within = omega arith;
      counted = omega arith;
      traffic = sym (append-nil (p.sent w));
      connection_lem = ap (λ m. record c { bytes_txed = m }) {y = c.bytes_txed + 0} (omega arith);
      ok_all = λ _. refl;
      all_ok = λ _. refl;
    },
  )
  write_loop-Delivers zero (b ∷ src) before c w enough = absurd (omega (arith, enough))
  write_loop-Delivers (suc fuel) (b ∷ src) before c w enough =
      let w1 = (k.write_fd c.fd (b ∷ src) w).1 in
      let step =
        elim (write_turn (k.write_fd c.fd (b ∷ src) w).0 (k.errno w1))
          as (λ t.
            TurnOf (b ∷ src) w w1 t
            → Done (b ∷ src) before c w (elim t as (λ t. Option (Written W)) [
              | wrote n ↦
                  write_loop k fuel (drop n (b ∷ src)) (before + n)
                    (record c { bytes_txed = c.bytes_txed + n }) w1
              | interrupted ↦ write_loop k fuel (b ∷ src) before c w1
              | failed error ↦
                  some (record { ret = error; actual_len = before; connection = c; world = w1 })
            ])) [
              | wrote n ↦ λ turn.
                  let (positive, within, traffic, patient) = turn in
                  let rest = length-drop n (b ∷ src) in
                  let (r, ends, d) =
                    write_loop-Delivers fuel (drop n (b ∷ src)) (before + n)
                      (record c { bytes_txed = c.bytes_txed + n }) w1
                      (omega (arith, rest, positive, within, patient, enough)) in
                  (r, ends, prepend n (b ∷ src) before c w w1 r within traffic d)
              | interrupted ↦ λ turn.
                  let (traffic, impatient) = turn in
                  let (r, ends, d) =
                    write_loop-Delivers fuel (b ∷ src) before c w1
                      (omega (arith, impatient, enough)) in
                  (
                    r,
                    ends,
                    record {
                      count = d.count;
                      within = d.within;
                      counted = d.counted;
                      traffic = d.traffic ∙ ap (λ s. s ++ take d.count (b ∷ src)) traffic;
                      connection_lem = d.connection_lem;
                      ok_all = d.ok_all;
                      all_ok = d.all_ok;
                    },
                  )
              | failed error ↦ λ turn.
                  let (positive, traffic) = turn in
                  (
                    _,
                    refl,
                    record {
                      count = 0;
                      within = omega arith;
                      counted = omega arith;
                      traffic = traffic ∙ sym (append-nil (p.sent w));
                      connection_lem =
                          ap (λ m. record c { bytes_txed = m }) {y = c.bytes_txed + 0}
                            (omega arith);
                      ok_all = λ ok. omega (arith, ok, positive);
                      all_ok = λ all. omega (arith, all);
                    },
                  )
            ] in
      step (turn-TurnOf c.fd (b ∷ src) w)

  -- On an open connection of a system whose `write` does what POSIX says, with fuel for every
  -- byte and every interruption that can come, and while `bytes_txed` and the length of the data
  -- stay within an int of 32 bits, `write_data` of a non-empty `src` returns; it has
  -- written the first `count` bytes of `src` and nothing else, it reports `count` in
  -- `actual_len`, adds it to `bytes_txed`, changes nothing else of the object, and reports no
  -- error exactly if `count` is the whole length.
  pub write_data-Delivers :
      (src : Bytes) (c : TcpConnection) (w : W) (fuel : ℕ)
      → 0 < length src
      → is_minus_one c.fd ≡ false
      → length src + p.patience w ≤ fuel
      → c.bytes_txed + length src < 2 ^ 31
      → Done src 0 c w (write_data k fuel (some src) c w)
  unfolding write_data
  write_data-Delivers src c w fuel some_data is_open enough in_range =
      rw (==_false {a = length src} {b = 0} (λ e. omega (arith, e, some_data)), is_open)
        (write_loop-Delivers fuel src 0 c w enough)

  -- Whatever the data and the descriptor, it returns.
  pub write_data-Returns :
      (src : Bytes) (c : TcpConnection) (w : W) (fuel : ℕ)
      → length src + p.patience w ≤ fuel
      → (r : Written W) × (write_data k fuel (some src) c w ≡ some r)
  unfolding write_data
  write_data-Returns src c w fuel enough = elim (Bool-cases (length src == 0)) [
    | inl empty ↦ rw empty (_, refl)
    | inr full ↦ rw full (elim (Bool-cases (is_minus_one c.fd)) [
      | inl shut ↦ rw shut (_, refl)
      | inr opened ↦
          rw opened (let (r, ends, _) = write_loop-Delivers fuel src 0 c w enough in (r, ends))
    ])
  ]
