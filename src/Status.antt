-- ===== src/Status.antt =====
-- The gRPC status codes that the services answer with (google.golang.org/grpc/codes), and what
-- gateway/transfer.go and client/queue.go make of them.
use paxos_2pc_payments.Base.{ℕ, Bool, true, false}

pub data Status : Type 0 where
  invalid_argument not_found already_exists failed_precondition aborted internal : Status
  data_loss unavailable deadline_exceeded resource_exhausted unimplemented : Status
  permission_denied unauthenticated : Status
  other_status : ℕ → Status

-- `retriable`
unfoldable pub retriable : Status → Bool
retriable unavailable = true
retriable deadline_exceeded = true
retriable resource_exhausted = true
retriable aborted = true
retriable _ = false
