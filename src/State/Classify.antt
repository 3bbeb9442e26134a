-- ===== src/State/Classify.antt =====
-- app/state/retry_classification.py.
use nurix_takehome.Common.{String}
use nurix_takehome.Model.Status.{CallStatus}
use nurix_takehome.Model.Txn.{Result, ok, err, non_terminal_outcome}

pub data RetryOutcome : Type 0 where
  terminal transient_retryable no_answer busy : RetryOutcome

-- `ClassifierInput`: a call status, or one of the two exceptions of `place_call`.
pub data ClassifierInput : Type 0 where
  status : CallStatus → ClassifierInput
  provider_rejected : String → ClassifierInput
  provider_unavailable : ClassifierInput

unfoldable pub classify : ClassifierInput → Result RetryOutcome
classify (provider_rejected _) = ok terminal
classify provider_unavailable = ok transient_retryable
classify (status CallStatus.no_answer) = ok no_answer
classify (status CallStatus.busy) = ok busy
classify (status CallStatus.completed) = ok terminal
classify (status CallStatus.failed) = ok terminal
classify (status _) = err non_terminal_outcome
