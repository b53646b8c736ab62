-- ===== src/Asio.antt =====
-- What include/core/tcp and source/core use of asio: its error codes, the executors that handlers
-- are bound to, and the buffers that callers hand in. asio itself is not modelled.
use cxx_server.Common.{ℕ, Bool, true, false, List, [], ◌∷◌, if◌then◌else◌, length}

-- The codes that the source tells apart; every other code is `other`. Success is `none` of `Option`.
pub data ErrorCode : Type 0 where
  connection_aborted connection_refused connection_reset eof operation_aborted : ErrorCode
  no_buffer_space timed_out not_connected stream_truncated : ErrorCode
  -- of OpenSSL's category, by their reasons
  bad_record_mac protocol_is_shutdown wrong_version_number : ErrorCode
  other : ℕ → ErrorCode

-- The codes that `Session::err`, `Client::err` and `Server::err` drop.
abbrev pub is_disconnect : ErrorCode → Bool
is_disconnect ErrorCode.connection_aborted = true
is_disconnect ErrorCode.connection_refused = true
is_disconnect ErrorCode.connection_reset = true
is_disconnect ErrorCode.eof = true
is_disconnect ErrorCode.operation_aborted = true
is_disconnect _ = false

-- The codes that `SSL::Session::err` and `SSL::Client::err` drop.
abbrev pub is_ssl_disconnect : ErrorCode → Bool
is_ssl_disconnect ErrorCode.stream_truncated = true
is_ssl_disconnect ErrorCode.bad_record_mac = true
is_ssl_disconnect ErrorCode.protocol_is_shutdown = true
is_ssl_disconnect ErrorCode.wrong_version_number = true
is_ssl_disconnect e = is_disconnect e

-- Where a handler runs: in the object's strand, or in its io service with no strand.
pub data Executor : Type 0 where
  strand io : Executor

abbrev pub executor_for : Bool → Executor
executor_for strand_needed = if strand_needed then Executor.strand else Executor.io

-- A `const void *` with its size.
pub data Buffer : Type 0 where
  null : ℕ → Buffer
  bytes : List ℕ → Buffer

abbrev pub size : Buffer → ℕ
size (Buffer.null n) = n
size (Buffer.bytes data') = length data'

abbrev pub is_null : Buffer → Bool
is_null (Buffer.null n) = true
is_null (Buffer.bytes data') = false

-- What a read of some bytes leaves in the memory that it is given.
abbrev pub fill : List ℕ → List ℕ → List ℕ
fill [] memory = memory
fill (b ∷ bs) [] = []
fill (b ∷ bs) (m ∷ memory) = b ∷ fill bs memory
