-- ===== src/Protocol/Binary/Stream.antt =====
-- Readers of messages on a buffer that grows.
use boutique.Common.{ℕ, ◌++◌, Bytes}
use boutique.Protocol.Read.Laws.{Extends, Stable, Stable-bind}
use boutique.Protocol.Binary.Schemas.Stream.{uint-Stable, stable_rules, read_schema-Stable}
use boutique.Protocol.Binary.{read_command_body, read_command, read_response_body, read_response}

read_command_body-Stable : (index : ℕ) → Stable (read_command_body index) (read_command_body index)
unfolding read_command_body
read_command_body-Stable index = search (stable_rules, read_schema-Stable) depth 12

read_response_body-Stable :
    (index : ℕ) → Stable (read_response_body index) (read_response_body index)
unfolding read_response_body
read_response_body-Stable index = search (stable_rules, read_schema-Stable) depth 12

-- Bytes that arrive later do not change a finished read: a command that was read is read again
-- with the later bytes left over, and a buffer that was refused stays refused.
pub read_command_stable :
    (c more : Bytes) → Extends more (read_command c) (read_command (c ++ more))
unfolding read_command
read_command_stable = (Stable-bind (uint-Stable 1) read_command_body-Stable).at

-- Bytes that arrive later do not change a finished read: a response that was read is read again
-- with the later bytes left over, and a buffer that was refused stays refused.
pub read_response_stable :
    (c more : Bytes) → Extends more (read_response c) (read_response (c ++ more))
unfolding read_response
read_response_stable = (Stable-bind (uint-Stable 1) read_response_body-Stable).at
