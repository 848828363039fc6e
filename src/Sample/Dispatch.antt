-- ===== src/Sample/Dispatch.antt =====
-- src/sample_test_client_moonx.cpp: from the bytes of the two connections to the session.
use core_connect_binary.Base.{
  ℕ, suc, ◌+◌, ◌%◌, ◌^◌, ◌≤◌, ◌<◌, ◌≡◌, ◌≢◌, refl, ap, ◌∙◌, true, false, some, List, [], ◌∷◌, ◌++◌,
  map, Bytes, arith, ltb-false, length, get_elem?, set, le_bytes, get_elem?-set_ne, ◌==◌, ==_false,
  if◌then◌else◌,
}
use core_connect_binary.Kernel.{Kernel}
use core_connect_binary.Framer.Defs.{StreamControl, GenericFramer, parse_stream}
use core_connect_binary.Framer.Spec.{idle}
use core_connect_binary.Framer.Refine.{view, IsValid}
use core_connect_binary.Framer.Frames.{frame, frames, AllFit, deliver_all, parse_stream-frames}
use core_connect_binary.Framer.Streams.{parse_raw_rx_data-some}
use core_connect_binary.Api.Layout.{Value, num, decode, encode}
use core_connect_binary.Api.Types.{code, mt1_gateway_client_logon_response, mt1_new_order_response}
use core_connect_binary.Api.Responses.{gateway_client_logon_response, new_order_response}
use core_connect_binary.Api.RoundTrip.{decode-encode}
use core_connect_binary.Api.Messages.{Member, gclg_res, nos_res, layout}
use core_connect_binary.Api.Frames.{
  Sent, payload, msg_type-encode, binary_frames, frames-payload, AllFit-payload,
}
use core_connect_binary.Client.Session.{member, erase}
use core_connect_binary.Sample.Session.{Session, Sample}
use core_connect_binary.Base.Int.{pos}
use core_connect_binary.Tcp.Connection.{TcpConnection, read_data}
use core_connect_binary.Sample.Receiving.{
  tcp_read_mdg, read_ended, number_at, logon_response, process_new_order_single_response,
  process_message, process_rx_frame, parse_ended, parsed,
}

-- What the gateway says: an answer to a logon or to an order, or anything else with its type.
pub data Answer : Type 0 where
  logon_answer : (status_id time_stamp : ℕ) → Answer
  order_answer :
      (user_id user_tag exchange_order_id exchange_event_id status_id time_stamp : ℕ) → Answer
  other_answer : Member → ℕ → List Value → Answer

abbrev pub sent : Answer → Sent
sent (logon_answer status_id time_stamp) =
    (gclg_res, num (code mt1_gateway_client_logon_response) ∷ num status_id ∷ num time_stamp ∷ [])
sent (order_answer user_id user_tag order_id event_id status_id time_stamp) = (
  nos_res,
  num (code mt1_new_order_response)
      ∷ num user_id
      ∷ num user_tag
      ∷ num order_id
      ∷ num event_id
      ∷ num status_id
      ∷ num time_stamp
      ∷ [],
)
sent (other_answer m t vs) = (m, num t ∷ vs)

-- Numbers of 64 bits, and a type of its own for anything else.
abbrev pub Genuine : Answer → Type 0
Genuine (logon_answer status_id time_stamp) = (status_id < 2 ^ 64) × (time_stamp < 2 ^ 64)
Genuine (order_answer user_id user_tag order_id event_id status_id time_stamp) =
    (user_id < 2 ^ 64)
    × (user_tag < 2 ^ 64)
    × (order_id < 2 ^ 64)
    × (event_id < 2 ^ 64)
    × (status_id < 2 ^ 64)
    × (time_stamp < 2 ^ 64)
Genuine (other_answer m t vs) =
    (t < 2 ^ 16) × (t ≢ code mt1_gateway_client_logon_response) × (t ≢ code mt1_new_order_response)

abbrev pub AllGenuine : List Answer → Type 0
AllGenuine [] = Unit
AllGenuine (a ∷ answers) = Genuine a × AllGenuine answers

-- A logon is granted by the status 0, an answer to an order takes its tag out of the set.
abbrev pub noted : Answer → Session → Session
noted (logon_answer status_id time_stamp) s = record s {
  logon_response = if status_id == 0 then true else s.logon_response;
}
noted (order_answer user_id user_tag order_id event_id status_id time_stamp) s = record s {
  user_tags = if member user_tag s.user_tags then erase user_tag s.user_tags else s.user_tags;
}
noted (other_answer m t vs) s = s

abbrev pub noted_all : List Answer → Session → Session
noted_all [] s = s
noted_all (a ∷ answers) s = noted_all answers (record (noted a s) { idle_count = 0 })

-- The switch, on the type and the two structs.
abbrev switch : ℕ → List Value → List Value → Session → Session
switch t logon order s =
    if t == code mt1_gateway_client_logon_response
    then logon_response (number_at 1 logon) s
    else if t == code mt1_new_order_response
    then process_new_order_single_response (number_at 2 order) s
    else s

process_message-sent :
    (a : Answer) (behind : Bytes) (s : Session)
    → Genuine a
    → process_message (payload (sent a) ++ behind) s ≡ noted a s
unfolding process_message logon_response process_new_order_single_response
process_message-sent (logon_answer status time) behind s g =
    let vs : List Value = num status ∷ num time ∷ [] in
    let t = code mt1_gateway_client_logon_response in
    let bytes = encode (layout gclg_res) (num t ∷ vs) ++ behind in
    ap
      (λ k.
        switch k (decode gateway_client_logon_response bytes) (decode new_order_response bytes) s)
      (msg_type-encode gclg_res t vs behind)
    ∙ ap (λ l. logon_response (number_at 1 l) s)
        (decode-encode gateway_client_logon_response (num t ∷ vs) behind (omega (arith, g.0, g.1)))
process_message-sent (order_answer user tag order event status time) behind s g =
    let vs : List Value = num user ∷ num tag ∷ num order ∷ num event ∷ num status ∷ num time ∷ [] in
    let t = code mt1_new_order_response in
    let bytes = encode (layout nos_res) (num t ∷ vs) ++ behind in
    ap
      (λ k.
        switch k (decode gateway_client_logon_response bytes) (decode new_order_response bytes) s)
      (msg_type-encode nos_res t vs behind)
    ∙ ap (λ l. process_new_order_single_response (number_at 2 l) s)
        (decode-encode new_order_response (num t ∷ vs) behind
          (omega (arith, g.0, g.1, g.2, g.3, g.4, g.5)))
process_message-sent (other_answer m t vs) behind s g =
    let bytes = encode (layout m) (num t ∷ vs) ++ behind in
    let same : t % 2 ^ 16 ≡ t = omega (arith, g.0) in
    ap
      (λ k.
        switch k (decode gateway_client_logon_response bytes) (decode new_order_response bytes) s)
      {y = t} (msg_type-encode m t vs behind ∙ same)
    ∙ rw (==_false g.1, ==_false g.2) refl

module _ (behind : Bytes) where
  -- A frame of the gateway is handled without its header; one of the market data changes nothing.
  process_rx_frame-frame :
      (s : Session) (p : Bytes)
      → 2 ≤ length p + 0
      → process_rx_frame behind s 0 (frame (process_rx_frame behind) 0 0 p)
        ≡ (0, record (process_message (p ++ behind) s) { idle_count = 0 })
  unfolding process_rx_frame le_bytes
  process_rx_frame-frame s p long =
      rw (ltb-false {a = suc (suc (length p))} {b = 4} (omega (arith, long))) refl

  process_rx_frame-frame_mdg :
      (s : Session) (p : Bytes)
      → 2 ≤ length p + 0
      → process_rx_frame behind s 1 (frame (process_rx_frame behind) 0 1 p) ≡ (0, s)
  unfolding process_rx_frame le_bytes
  process_rx_frame-frame_mdg s p long =
      rw (ltb-false {a = suc (suc (length p))} {b = 4} (omega (arith, long))) refl

  deliver_all-noted_all :
      (max : ℕ) (answers : List Answer) (s : Session)
      → AllFit (process_rx_frame behind) 0 0 max (map payload (map sent answers))
      → AllGenuine answers
      → deliver_all (process_rx_frame behind) 0 0 (map payload (map sent answers)) s
        ≡ (0, idle, noted_all answers s)
  unfolding deliver_all
  deliver_all-noted_all max [] s fit g = refl
  deliver_all-noted_all max (a ∷ answers) s fit g =
      rw (process_rx_frame-frame s (payload (sent a)) fit.0, process_message-sent a behind s g.0)
        (deliver_all-noted_all max answers (record (noted a s) { idle_count = 0 }) fit.3 g.1)

  deliver_all_mdg :
      (max : ℕ) (ps : List Bytes) (s : Session)
      → AllFit (process_rx_frame behind) 0 1 max ps
      → deliver_all (process_rx_frame behind) 0 1 ps s ≡ (0, idle, s)
  unfolding deliver_all
  deliver_all_mdg max [] s fit = refl
  deliver_all_mdg max (p ∷ ps) s fit =
      rw (process_rx_frame-frame_mdg s p fit.0) (deliver_all_mdg max ps s fit.3)

parse_ended-fine :
    {W : Type 0} (behind : Bytes) (k : Kernel W) (ev_terminate : W → ℕ × W)
    → (t : ℕ × GenericFramer × Session) (c : Sample W) → t.0 ≡ 0
    → parse_ended behind k ev_terminate t c ≡ (0, record c { framer = t.1; session = t.2 })
unfolding parse_ended
parse_ended-fine behind k ev_terminate t c e = rw e refl

-- When the gateway's stream is valid and idle and takes frames of 1024 bytes: answers to logons and
-- orders with 64-bit numbers and other messages with other types, each sent as a frame of the interface,
-- read in one piece, whatever the framer's buffer holds behind a frame: the client does not end; a logon
-- answered with status 0 is noted, the tags of the answered orders leave the set, nothing else changes
-- but the idle count and the framer.
pub parsed-noted_all :
    {W : Type 0} (behind : Bytes) (k : Kernel W) (ev_terminate : W → ℕ × W)
    → (max : ℕ) (sc : StreamControl) (c : Sample W) (answers : List Answer)
    → 0 < (let f = c.framer in f.number_of_streams)
    → get_elem? (let f = c.framer in f.sc) 0 ≡ some sc
    → IsValid max sc
    → view sc ≡ idle
    → 1024 ≤ max
    → AllGenuine answers
    → (f : GenericFramer) × (parsed behind k ev_terminate 0
          (binary_frames (process_rx_frame behind) 0 (map sent answers))
          c
        ≡ (0, record c { framer = f; session = noted_all answers c.session }))
unfolding parsed
parsed-noted_all behind k ev_terminate max sc c answers lt at v e big g =
    let ms = map sent answers in
    let ps = map payload ms in
    let bytes = frames (process_rx_frame behind) 0 0 ps in
    let fit = AllFit-payload (process_rx_frame behind) 0 max ms big in
    let out = parse_stream (process_rx_frame behind) 0 0 sc c.session bytes in
    let seen =
      parse_stream-frames (process_rx_frame behind) 0 0 max sc c.session ps v e fit
      ∙ deliver_all-noted_all behind max answers c.session fit g in
    let f = c.framer in
    let after : GenericFramer = record f { sc = set f.sc 0 out.1 } in
    (
      after,
      ap (λ b. parsed behind k ev_terminate 0 b c) (frames-payload (process_rx_frame behind) 0 ms)
          ∙ ap (λ t. parse_ended behind k ev_terminate t c)
              (parse_raw_rx_data-some (process_rx_frame behind) 0 0 f c.session bytes lt at)
          ∙ parse_ended-fine behind k ev_terminate (out.0, after, out.2) c (ap (λ t. t.0) seen)
          ∙ ap (λ o. (0, record c { framer = after; session = o })) (ap (λ t. t.2) seen),
    )

-- When the market data stream, the second one, is valid and idle: frames that fit the format and the
-- limit, read in one piece, change nothing of the client but the framer, in which the gateway's stream
-- stays as it was, and never end the client.
pub parsed_mdg-kept :
    {W : Type 0} (behind : Bytes) (k : Kernel W) (ev_terminate : W → ℕ × W)
    → (max : ℕ) (sc : StreamControl) (c : Sample W) (ps : List Bytes)
    → 1 < (let f = c.framer in f.number_of_streams)
    → get_elem? (let f = c.framer in f.sc) 1 ≡ some sc
    → IsValid max sc
    → view sc ≡ idle
    → AllFit (process_rx_frame behind) 0 1 max ps
    → (f : GenericFramer) × (parsed behind k ev_terminate 1
          (frames (process_rx_frame behind) 0 1 ps)
          c
        ≡ (0, record c { framer = f }))
      × (get_elem? f.sc 0 ≡ get_elem? (let g = c.framer in g.sc) 0)
unfolding parsed
parsed_mdg-kept behind k ev_terminate max sc c ps lt at v e fit =
    let bytes = frames (process_rx_frame behind) 0 1 ps in
    let out = parse_stream (process_rx_frame behind) 0 1 sc c.session bytes in
    let seen =
      parse_stream-frames (process_rx_frame behind) 0 1 max sc c.session ps v e fit
      ∙ deliver_all_mdg behind max ps c.session fit in
    let f = c.framer in
    let after : GenericFramer = record f { sc = set f.sc 1 out.1 } in
    (
      after,
      ap (λ t. parse_ended behind k ev_terminate t c)
            (parse_raw_rx_data-some (process_rx_frame behind) 0 1 f c.session bytes lt at)
          ∙ parse_ended-fine behind k ev_terminate (out.0, after, out.2) c (ap (λ t. t.0) seen)
          ∙ ap (λ o. (0, record c { framer = after; session = o })) (ap (λ t. t.2) seen),
      get_elem?-set_ne f.sc out.1 (λ q. absurd (omega (arith, q))),
    )

-- When the market data's stream is the second of the framer, valid and idle, and the payloads fit the
-- format and the limit: what tcp_read_mdg reads of their frames, in one piece, changes nothing of the
-- client but the market data's connection, the system, its place in the framer, which leaves the
-- gateway's stream as it was, and the count of silent timers, which starts anew; no handler sees the
-- frames, and there is no error.
pub tcp_read_mdg-kept :
    {W : Type 0} (behind : Bytes) (k : Kernel W) (ev_terminate : W → ℕ × W)
    → (max : ℕ) (sc : StreamControl) (c : Sample W) (ps : List Bytes)
    → (len : ℕ) (con : TcpConnection) (w : W)
    → read_data k false (pos 32768) c.mdg_con c.world
      ≡ (0, len, frames (process_rx_frame behind) 0 1 ps, con, w)
    → 1 < (let f = c.framer in f.number_of_streams)
    → get_elem? (let f = c.framer in f.sc) 1 ≡ some sc
    → IsValid max sc
    → view sc ≡ idle
    → AllFit (process_rx_frame behind) 0 1 max ps
    → (f : GenericFramer) × (tcp_read_mdg behind k ev_terminate c
        ≡ (0, record c { mdg_con = con; world = w; tcp_rx_idle_count = 0; framer = f }))
      × (get_elem? f.sc 0 ≡ get_elem? (let g = c.framer in g.sc) 0)
unfolding tcp_read_mdg read_ended
tcp_read_mdg-kept behind k ev_terminate max sc c ps len con w reads lt at v e fit =
    let d = record c { mdg_con = con; world = w; tcp_rx_idle_count = 0 } in
    let (f, ends, kept) = parsed_mdg-kept behind k ev_terminate max sc d ps lt at v e fit in
    (
      f,
      ap (λ t. read_ended behind k ev_terminate 1 t.0 t.2 (record c { mdg_con = t.3; world = t.4 }))
            reads
          ∙ ends,
      kept,
    )
