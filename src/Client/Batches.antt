-- ===== src/Client/Batches.antt =====
-- src/binary_gateway_load_test_client.cpp: a batch of orders.
use core_connect_binary.Base.{
  ℕ, zero, suc, ◌+◌, ◌-◌, ◌%◌, ◌^◌, ◌≤◌, ◌<◌, ◌≡◌, ◌⊎◌, Option, some, List, [], ◌∷◌, Bytes,
}
use core_connect_binary.Kernel.{Kernel}
use core_connect_binary.Tcp.WriteData.{IsPosix}
use core_connect_binary.Client.Session.{NewOrderRequest, NewOrderResponse, Client, set_request}
use core_connect_binary.Client.Sending.{make_order}

abbrev pub AllBelow : ℕ → List ℕ → Type 0
AllBelow n [] = Unit {0}
AllBelow n (x ∷ xs) = (x < n) × AllBelow n xs

-- `n` tags from `start` on, put before `tags` one after the other.
abbrev pub new_tags : ℕ → ℕ → List ℕ → List ℕ
new_tags start zero tags = tags
new_tags start (suc n) tags = new_tags (start + 1) n (start ∷ tags)

abbrev pub tags_of : {W : Type 0} → Client W → List ℕ
tags_of c = let o = c.orders in o.user_tags

abbrev pub batch_of : {W : Type 0} → Client W → ℕ
batch_of c = let l = c.load in l.number_in_batch

-- `n` orders were sent between `c` and `m`.
pub record Sent {W : Type 0} (n : ℕ) (c m : Client W) : Type 0 where
  pub left : m.number_to_send + n ≡ c.number_to_send
  pub next_tag : m.user_tag ≡ c.user_tag + n
  pub counted : m.counter ≡ c.counter + n
  pub tags : tags_of m ≡ new_tags c.user_tag n (tags_of c)

module _ {W : Type 0} (k : Kernel W) (p : IsPosix k) (ev_terminate : W → ℕ × W)
    (encode : NewOrderRequest → Bytes) (as_response : NewOrderRequest → NewOrderResponse) where
  -- The client after an order whose tag was new.
  abbrev moved_on : ℕ → Client W → Client W
  moved_on count c =
      let o = c.orders in
      record c {
        counter = c.counter + 1;
        number_to_send = c.number_to_send - 1;
        user_tag = (c.user_tag + 1) % 2 ^ 64;
        orders = record {
          user_tags = c.user_tag ∷ o.user_tags;
          stats = set_request as_response (make_order count c) o.stats;
        };
      }

  -- The end of the loop from `count` on.
  abbrev Ends : ℕ → Client W → Option (ℕ × Client W) → Type 0
  Ends count c o =
      (ret : ℕ) × (m : Client W) × (n : ℕ) × (o ≡ some (ret, m))
      × Sent n c m
      × (n + count ≤ batch_of c)
      × (ret ≡ 0 → (n + count ≡ batch_of c) ⊎ (m.number_to_send ≡ 0))
