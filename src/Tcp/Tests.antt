-- ===== src/Tcp/Tests.antt =====
-- util_lib/tcp over a concrete system.
use core_connect_binary.Base.{refl, ◌⊎◌, some, [], ◌∷◌, arith}
use core_connect_binary.Base.Int.{pos}
use core_connect_binary.Kernel.{other_errno}
use core_connect_binary.Kernel.Sample.{world, test_kernel, quiet}
use core_connect_binary.Tcp.Connection.{TcpConnection, tcp_connection, write_data, asynchronous}
use core_connect_binary.Tcp.Sample.{test_kernel-IsPosix}
use core_connect_binary.Tcp.WriteData.{Done, write_data-Delivers}
use core_connect_binary.Tcp.Client.{TcpClient, tcp_client, connect}
use core_connect_binary.Tcp.Connect.{
  HandedOver, CleanedUp, LeftOpen, InProgress, connect-synchronous, connect-asynchronous,
}
use core_connect_binary.Tcp.Server.{TcpServer, tcp_server, listen}
use core_connect_binary.Tcp.Listen.{
  Accepted, Closed, Listening, listen-synchronous, listen-asynchronous,
}

abbrev open_connection : TcpConnection
open_connection = record (tcp_connection (pos 8192) (pos 8192)) { fd = pos 5 }

write_data-Delivers_example :
    Done test_kernel test_kernel-IsPosix
      (1 ∷ 2 ∷ 3 ∷ [])
      0
      open_connection
      (world [] 2 other_errno)
      (write_data test_kernel 5 (some (1 ∷ 2 ∷ 3 ∷ [])) open_connection (world [] 2 other_errno))
unfolding tcp_connection
write_data-Delivers_example =
    write_data-Delivers test_kernel test_kernel-IsPosix (1 ∷ 2 ∷ 3 ∷ []) open_connection
      (world [] 2 other_errno) 5 (omega arith) refl (omega arith) (omega arith)

abbrev waiting_client : TcpClient
waiting_client = tcp_client (pos 8192) (pos 8192)

connect-synchronous_example :
    let m = connect test_kernel waiting_client quiet in
    HandedOver m ⊎ (CleanedUp test_kernel m ⊎ LeftOpen m)
unfolding tcp_client tcp_connection
connect-synchronous_example = connect-synchronous test_kernel waiting_client quiet refl

abbrev no_wait_client : TcpClient
no_wait_client = record waiting_client {
  base = record (tcp_connection (pos 8192) (pos 8192)) { mode = asynchronous };
}

connect-asynchronous_example :
    let m = connect test_kernel no_wait_client quiet in
    HandedOver m ⊎ (CleanedUp test_kernel m ⊎ InProgress m)
connect-asynchronous_example = connect-asynchronous test_kernel no_wait_client quiet refl

abbrev waiting_server : TcpServer
waiting_server = tcp_server (pos 8192) (pos 8192)

listen-synchronous_example :
    let m = listen test_kernel waiting_server quiet in
    Accepted m ⊎ Closed test_kernel waiting_server m
unfolding tcp_server tcp_connection
listen-synchronous_example = listen-synchronous test_kernel waiting_server quiet refl

abbrev no_wait_server : TcpServer
no_wait_server = record waiting_server {
  base = record (tcp_connection (pos 8192) (pos 8192)) { mode = asynchronous };
}

listen-asynchronous_example :
    let m = listen test_kernel no_wait_server quiet in
    Accepted m ⊎ (Closed test_kernel no_wait_server m ⊎ Listening m)
listen-asynchronous_example = listen-asynchronous test_kernel no_wait_server quiet refl
