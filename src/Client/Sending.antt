-- ===== src/Client/Sending.antt =====
-- src/binary_gateway_load_test_client.cpp: what the client sends. Parameters and numbers are those of
-- Client/Session; `m_NumberUsers` is not 0.
use core_connect_binary.Base.{
  ℕ, zero, suc, ◌+◌, ◌-◌, ◌*◌, ◌%◌, ◌^◌, Bool, true, false, not, ◌&&◌, ◌||◌, Option, none, some,
  List, [], ◌∷◌, length, ltb, leb, ◌==◌, if◌then◌else◌, Bytes,
}
use core_connect_binary.Kernel.{Kernel}
use core_connect_binary.Tcp.Connection.{Written, write_data}
use core_connect_binary.Client.Session.{
  NewOrderRequest, NewOrderResponse, set_request, Client, member, at,
}

-- `m_instruments`, the first price of each instrument.
abbrev pub instruments : List (ℕ × ℕ)
instruments =
    (1, 500100)
    ∷ (2, 400)
    ∷ (3, 10962)
    ∷ (4, 438)
    ∷ (6, 421)
    ∷ (10, 3927)
    ∷ (11, 2000)
    ∷ (12, 12216)
    ∷ (13, 11846)
    ∷ (14, 4865)
    ∷ (15, 12000)
    ∷ (16, 1394)
    ∷ (17, 17330)
    ∷ (18, 7330)
    ∷ []

-- The order that a round of the loop sends; an instrument that is missing has the price 0.
unfoldable pub make_order : {W : Type 0} → ℕ → Client W → NewOrderRequest
make_order count c =
    let user_id = count % c.number_users + c.start_user_id in
    let instrument = c.counter % 11 + 1 in
    let order_type = c.counter % 9 + 1 in
    let side = c.counter % 2 + 1 in
    let price = at 0 instrument instruments in
    record {
      user_id = user_id;
      user_tag = c.user_tag;
      order_instrument_id = instrument;
      order_type = order_type;
      order_side = side;
      order_quantity = 100;
      order_disclosed_quantity = 100;
      trigger_on = 1;
      order_price =
          if order_type == 1 || (order_type == 4 || (order_type == 7 || order_type == 9))
          then 0
          else price;
      order_trigger_price = price + (if side == 2 || not (user_id % 3 == 0) then 5 else 0);
      order_time_in_force = c.counter % 4 + 1;
      market_price_protection_ticks = 0;
      order_execution_type = 1;
    }

-- The order was sent: its tag is new, or not, and then nothing moves on.
unfoldable pub record_tag : Bool → {W : Type 0} → ℕ → Client W → ℕ × Client W
record_tag true count c = (count, c)
record_tag false count c =
    let o = c.orders in
    (
      count + 1,
      record c {
        counter = c.counter + 1;
        number_to_send = c.number_to_send - 1;
        user_tag = (c.user_tag + 1) % 2 ^ 64;
        orders = record o { user_tags = c.user_tag ∷ o.user_tags };
      },
    )

-- `objStats.Set(f.msg)`
unfoldable pub count_order :
    {W : Type 0} → (NewOrderRequest → NewOrderResponse) → NewOrderRequest → Client W → Client W
count_order as_response r c =
    let o = c.orders in record c { orders = record o { stats = set_request as_response r o.stats } }

unfoldable pub order_sent :
    {W : Type 0} → (NewOrderRequest → NewOrderResponse) → ℕ → Client W → ℕ × Client W
order_sent as_response count c =
    let d = count_order as_response (make_order count c) c in
    let o = d.orders in record_tag (member d.user_tag o.user_tags) count d

-- The test of the loop but for `ret`.
unfoldable pub more_to_send : {W : Type 0} → ℕ → Client W → Bool
more_to_send count c = ltb count (let l = c.load in l.number_in_batch) && ltb 0 c.number_to_send

module _ {W : Type 0} (k : Kernel W) (ev_terminate : W → ℕ × W) (fuel : Bytes → W → ℕ) where
  unfoldable pub terminate : Client W → ℕ × Client W
  terminate c = let (ret, w) = ev_terminate c.world in (ret, record c { world = w })

  -- What `tcp_write` makes of the end of `write_data`.
  unfoldable pub written : ℕ → Written W → Client W → ℕ × Client W
  written len r c =
      let d = record c { con = r.connection; world = r.world } in
      if r.ret == 0 && r.actual_len == len
      then (0, record d { tcp_tx_idle_count = 0 })
      else terminate d

  unfoldable pub write_ended : ℕ → Client W → Option (Written W) → Option (ℕ × Client W)
  write_ended len c none = none
  write_ended len c (some r) = some (written len r c)

  unfoldable pub tcp_write : Bytes → Client W → Option (ℕ × Client W)
  tcp_write src c =
      write_ended (length src) c (write_data k (fuel src c.world) (some src) c.con c.world)

  -- The result of the write is not used.
  unfoldable pub beaten : Option (ℕ × Client W) → Option (Client W)
  beaten none = none
  beaten (some (ret, c)) = some c

  unfoldable pub send_heartbeat : Bytes → Client W → Option (Client W)
  send_heartbeat heartbeat c = beaten (tcp_write heartbeat c)

  -- The connection is watched: whether nothing was read for too long, or nothing written.
  unfoldable pub watch_tx : Bool → Bytes → Client W → Option (Client W)
  watch_tx true heartbeat c = send_heartbeat heartbeat c
  watch_tx false heartbeat c = some c

  unfoldable pub watch_rx : Bool → Bytes → Client W → Option (Client W)
  watch_rx true heartbeat c = some (terminate c).1
  watch_rx false heartbeat c =
      watch_tx (leb 1 (c.tcp_tx_idle_count + 1)) heartbeat
        (record c { tcp_tx_idle_count = c.tcp_tx_idle_count + 1 })

  unfoldable pub watch : Bool → Bytes → Client W → Option (Client W)
  watch false heartbeat c = some c
  watch true heartbeat c =
      watch_rx (ltb 6 (c.tcp_rx_idle_count + 1)) heartbeat
        (record c { tcp_rx_idle_count = c.tcp_rx_idle_count + 1 })

  -- After more than 10 timers the log is flushed.
  unfoldable pub count_idle : Option (Client W) → Option (Client W)
  count_idle none = none
  count_idle (some c) =
      some (record c { idle_count = if ltb 10 (c.idle_count + 1) then 0 else c.idle_count + 1 })

  unfoldable pub process_idle_tmr : Bytes → Client W → Option (Client W)
  process_idle_tmr heartbeat c = count_idle (watch c.tcp_connected heartbeat c)

  module _ (encode : NewOrderRequest → Bytes)
      (as_response : NewOrderRequest → NewOrderResponse) where
    -- What follows a write: `next` is the rest of the loop.
    unfoldable pub after_write :
        (ℕ → Client W → Option (ℕ × Client W)) → ℕ → Option (ℕ × Client W) → Option (ℕ × Client W)
    after_write next count none = none
    after_write next count (some (zero, c)) =
        let (n, d) = order_sent as_response count c in next n d
    after_write next count (some (suc ret, c)) = some (suc ret, c)

    unfoldable pub loop_if : Bool → Client W → Option (ℕ × Client W) → Option (ℕ × Client W)
    loop_if true c rest = rest
    loop_if false c rest = some (0, c)

    -- The loop of `process_load_tmr`: nothing when the rounds run out.
    unfoldable pub load_loop : ℕ → ℕ → Client W → Option (ℕ × Client W)
    load_loop zero count c = loop_if (more_to_send count c) c none
    load_loop (suc rounds) count c = loop_if (more_to_send count c) c (
        after_write (λ n d. load_loop rounds n d) count (tcp_write (encode (make_order count c)) c))

    -- The load timer starts again while there are orders to send.
    unfoldable pub load_ended : (ℕ → W → ℕ × W) → Option (ℕ × Client W) → Option (Client W)
    load_ended tmr_load_add none = none
    load_ended tmr_load_add (some (ret, c)) =
        let again = ret == 0 && ltb 0 c.number_to_send in
        let (_, w) =
          tmr_load_add (let l = c.load in l.tmr_interval_msecs * 1000 % 2 ^ 32) c.world in
        let d = if again then record c { world = w } else c in
        some (if c.number_to_send == 0 then record d { counter = 0 } else d)

    unfoldable pub process_load_tmr : (ℕ → W → ℕ × W) → ℕ → Client W → Option (Client W)
    process_load_tmr tmr_load_add rounds c = load_ended tmr_load_add (load_loop rounds 0 c)
