-- ===== src/Framer/Spec.antt =====
-- What a framer promises, byte by byte: no buffer, no chunks.
use core_connect_binary.Base.{
  ℕ, zero, suc, ◌+◌, ◌-◌, ◌*◌, ◌%◌, ◌^◌, [], ◌∷◌, ◌++◌, ltb, ◌==◌, if◌then◌else◌, length, Bytes,
}

-- Nothing of a frame yet; its first length byte; what has come of it, and how many bytes are missing.
pub data Progress : Type 0 where
  idle : Progress
  half : ℕ → Progress
  filling : Bytes → ℕ → Progress

-- Still running, or stopped with an error code.
pub data Result (H : Type 0) : Type 0 where
  going : Progress → H → Result H
  failed : ℕ → H → Result H

module _ {H : Type 0} (process_rx_frame : H → ℕ → Bytes → ℕ × H)
    (header_counted stream max : ℕ) where
  -- What the host makes of a frame.
  unfoldable pub deliver : Bytes → H → Result H
  deliver frame h =
      let (r, h') = process_rx_frame h stream frame in if r == 0 then going idle h' else failed r h'

  -- With `got` received and `need` bytes missing.
  unfoldable pub advance : Bytes → ℕ → H → Result H
  advance got zero h = deliver got h
  advance got (suc need) h = going (filling got (suc need)) h

  unfoldable pub feed : Progress → H → ℕ → Result H
  feed idle h b = going (half b) h
  feed (half b0) h b =
      let n = (b0 + 256 * b) % 2 ^ 16 in
      if ltb n 2 then failed 5000 h else advance (b0 ∷ b ∷ []) (n - header_counted) h
  feed (filling got need) h b =
      if ltb max (length got + 1) then failed 5002 h else advance (got ++ b ∷ []) (need - 1) h

  unfoldable pub run : Progress → H → Bytes → Result H
  run p h [] = going p h
  run p h (b ∷ bs) = elim (feed p h b) [ going p' h' ↦ run p' h' bs | failed c h' ↦ failed c h' ]

  unfoldable pub continue : Result H → Bytes → Result H
  continue (going p h) bs = run p h bs
  continue (failed c h) bs = failed c h
