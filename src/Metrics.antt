-- ===== src/Metrics.antt =====
-- pkg/metrics/metrics.go
pub mod Laws
use cluster_machine_approver.Prelude.{ℕ, List, [], ◌∷◌, String}
use cluster_machine_approver.Controller.Limits.{State}

-- prometheus.Desc, by name
abbrev pub Desc : Type 0
Desc = String

abbrev pub current_pending_csr_count_desc : Desc
current_pending_csr_count_desc = "mapi_current_pending_csr"

abbrev pub max_pending_csr_desc : Desc
max_pending_csr_desc = "mapi_max_pending_csr"

-- A constant gauge; a uint32 is exact as a float64.
pub record Metric : Type 0 where
  pub desc : Desc
  pub value : ℕ

-- What goes into the channel, in order.
unfoldable pub describe : List Desc
describe = current_pending_csr_count_desc ∷ max_pending_csr_desc ∷ []

unfoldable pub collect_metrics : State → List Metric
collect_metrics s =
    record { desc = current_pending_csr_count_desc; value = s.pending_csrs }
    ∷ record { desc = max_pending_csr_desc; value = s.max_pending_csrs }
    ∷ []
