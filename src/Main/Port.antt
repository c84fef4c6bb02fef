-- ===== src/Main/Port.antt =====
-- The bind address of the metrics.
use Prim.Native.String
use cluster_machine_approver.Prelude.{ℕ, ◌<◌, ◌^◌, ◌≡◌, some, ok}
use cluster_machine_approver.Prelude.Int.{pos}
use cluster_machine_approver.GoStd.Strings.{itoa}
use cluster_machine_approver.GoStd.Atoi.Laws.{atoi-itoa}
use cluster_machine_approver.Main.{metrics_port}

-- A number below 2^63 that METRICS_PORT holds in decimal is the port, behind a colon and with no host.
pub metrics_port-itoa :
    (n : ℕ) → n < 2 ^ 63 → metrics_port (some (itoa (pos n))) ≡ ok (String.◌++◌ ":" (itoa (pos n)))
unfolding metrics_port
metrics_port-itoa n h = rw (atoi-itoa n h)
