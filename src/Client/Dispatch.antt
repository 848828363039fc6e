-- ===== src/Client/Dispatch.antt =====
-- src/binary_gateway_load_test_client.cpp: from the bytes of the connection to the orders.
use core_connect_binary.Base.{List, [], ◌∷◌, Bytes}
use core_connect_binary.Kernel.{Kernel}
use core_connect_binary.Client.Session.{Orders, Client}
use core_connect_binary.Client.Receiving.{Message, process_message}

-- The messages one after the other.
abbrev pub handle_all : (Bytes → Message) → List Bytes → Orders → Orders
handle_all decode [] o = o
handle_all decode (p ∷ ps) o = handle_all decode ps (process_message (decode p) o)
