-- ===== src/Tcp/Errors.antt =====
-- util_lib/tcp/h/tcp_error.hpp: `enum tcp_errors`.
use core_connect_binary.Base.{ℕ}

abbrev pub e_tcp_no_error : ℕ
e_tcp_no_error = 0

abbrev pub e_tcp_socket : ℕ
e_tcp_socket = 9000

abbrev pub e_tcp_bind_failed : ℕ
e_tcp_bind_failed = 9001

abbrev pub e_tcp_listen_fail : ℕ
e_tcp_listen_fail = 9002

abbrev pub e_tcp_accept_failed : ℕ
e_tcp_accept_failed = 9003

abbrev pub e_tcp_listen_in_progress : ℕ
e_tcp_listen_in_progress = 9004

abbrev pub e_tcp_already_connected : ℕ
e_tcp_already_connected = 9005

abbrev pub e_tcp_connect_failed : ℕ
e_tcp_connect_failed = 9006

abbrev pub e_tcp_select_failed : ℕ
e_tcp_select_failed = 9007

abbrev pub e_tcp_connect_timeout : ℕ
e_tcp_connect_timeout = 9008

abbrev pub e_tcp_connect_error : ℕ
e_tcp_connect_error = 9009

abbrev pub e_tcp_conn_in_progress : ℕ
e_tcp_conn_in_progress = 9010

abbrev pub e_tcp_already_closed : ℕ
e_tcp_already_closed = 9011

abbrev pub e_tcp_close_fail : ℕ
e_tcp_close_fail = 9012

abbrev pub e_tcp_null_ptr : ℕ
e_tcp_null_ptr = 9013

abbrev pub e_tcp_max_read_len : ℕ
e_tcp_max_read_len = 9014

abbrev pub e_tcp_read_fail : ℕ
e_tcp_read_fail = 9015

abbrev pub e_tcp_read_error : ℕ
e_tcp_read_error = 9016

abbrev pub e_tcp_max_write_len : ℕ
e_tcp_max_write_len = 9017

abbrev pub e_tcp_would_block : ℕ
e_tcp_would_block = 9018

abbrev pub e_tcp_write_fail : ℕ
e_tcp_write_fail = 9019

abbrev pub e_tcp_get_flags : ℕ
e_tcp_get_flags = 9020

abbrev pub e_tcp_clear_flags : ℕ
e_tcp_clear_flags = 9021

abbrev pub e_tcp_set_flags : ℕ
e_tcp_set_flags = 9022

abbrev pub e_tcp_set_sock_reuse : ℕ
e_tcp_set_sock_reuse = 9023

abbrev pub e_tcp_set_sock_linger : ℕ
e_tcp_set_sock_linger = 9024

abbrev pub e_tcp_set_sock_kalive : ℕ
e_tcp_set_sock_kalive = 9025

abbrev pub e_tcp_set_disable_nagle : ℕ
e_tcp_set_disable_nagle = 9026

abbrev pub e_tcp_set_sock_tx_buf : ℕ
e_tcp_set_sock_tx_buf = 9027

abbrev pub e_tcp_set_sock_rx_buf : ℕ
e_tcp_set_sock_rx_buf = 9028

abbrev pub e_tcp_invalid_host_name : ℕ
e_tcp_invalid_host_name = 9029

abbrev pub e_tcp_host_not_defined : ℕ
e_tcp_host_not_defined = 9030

abbrev pub e_tcp_invalid_service_name : ℕ
e_tcp_invalid_service_name = 9031

abbrev pub e_tcp_invalid_service_port : ℕ
e_tcp_invalid_service_port = 9032

abbrev pub e_tcp_service_not_defined : ℕ
e_tcp_service_not_defined = 9033

abbrev pub e_tcp_read_buffer_sizes : ℕ
e_tcp_read_buffer_sizes = 9034

abbrev pub e_tcp_set_disable_cork : ℕ
e_tcp_set_disable_cork = 9035
