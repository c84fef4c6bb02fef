-- ===== src/MachineHandler/Hook.antt =====
-- What the hook makes of the times of a machine.
use cluster_machine_approver.Prelude.{◌≡◌, refl, String, ok}
use cluster_machine_approver.GoStd.ParseIp.{codes}
use cluster_machine_approver.GoStd.Rfc3339.{DateTime, instant}
use cluster_machine_approver.GoStd.Rfc3339.Laws.{IsUtc, written, parse_rfc3339-written}
use cluster_machine_approver.MachineHandler.{
  Value, string_value, time_value, time_target, other_target, string_to_time_hook,
}

-- The hook reads a date and a time of day in UTC, without a fraction, from the text that RFC 3339
-- writes of them, where a time is wanted, and leaves every part as it is where none is.
pub string_to_time_hook-written :
    (Data : Type 0) (t : DateTime) (s : String) (v : Value Data)
    → IsUtc t
    → codes s ≡ written t
    → (string_to_time_hook {Data = Data} time_target (string_value s) ≡ ok (time_value (instant t)))
      × (string_to_time_hook other_target v ≡ ok v)
unfolding string_to_time_hook
string_to_time_hook-written Data t s v utc h = (rw (parse_rfc3339-written t s utc h) refl, refl)
