-- ===== src/Common.antt =====
-- What the components share of include/common.h: the return codes and the buffer sizes.
use modembridge.Prelude.{ℕ}

-- SUCCESS and the ERROR_ codes.
pub data Status : Type 0 where
  success : Status
  error_general error_invalid_arg error_io error_timeout error_connection error_config : Status
  error_hangup error_modem error_no_carrier error_busy error_no_dialtone : Status
  error_no_answer error_partial error_serial error_telnet error_buffer_full : Status
  error_protocol error_system error_thread : Status

-- BUFFER_SIZE.
abbrev pub buffer_size : ℕ
buffer_size = 4096
