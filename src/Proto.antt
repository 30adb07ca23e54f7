-- ===== src/Proto.antt =====
-- src/proto/mod.rs: the protocol's constants. The wire format is in the modules below.
pub mod Code
pub mod Opcode
pub mod Options
pub mod Packet
use atftp.Common.{ℕ, ◌+◌}

abbrev pub default_block_size : ℕ
default_block_size = 512

abbrev pub min_block_size : ℕ
min_block_size = 8

abbrev pub max_block_size : ℕ
max_block_size = 65464

abbrev pub default_timeout_secs : ℕ
default_timeout_secs = 5

abbrev pub default_window_size : ℕ
default_window_size = 1

abbrev pub max_packet_size : ℕ
max_packet_size = max_block_size + 4
