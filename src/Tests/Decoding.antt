-- ===== src/Tests/Decoding.antt =====
-- The hook for the times of machines.
use cluster_machine_approver.Prelude.{◌≡◌, refl, false, String, ok, err, arith}
use cluster_machine_approver.GoStd.ParseIp.{codes, is_digit}
use cluster_machine_approver.GoStd.Rfc3339.{DateTime, instant, bad_time, days_in, parse_rfc3339}
use cluster_machine_approver.GoStd.Rfc3339.Laws.{IsUtc, written}
use cluster_machine_approver.MachineHandler.{
  string_value, time_value, time_target, other_target, string_to_time_hook,
}
use cluster_machine_approver.MachineHandler.Hook.{string_to_time_hook-written}

abbrev created : DateTime
created = record {
  year = 2024;
  month = 2;
  day = 29;
  hour = 3;
  minute = 4;
  second = 5;
  nanosecond = 0;
  west = false;
  offset = 0;
}

abbrev text : String
text = "2024-02-29T03:04:05Z"

created-IsUtc : IsUtc created
unfolding days_in
created-IsUtc = record {
  year = omega arith;
  month_from = omega arith;
  month_to = omega arith;
  day_from = omega arith;
  day_to = omega arith;
  hour = omega arith;
  minute = omega arith;
  second = omega arith;
  whole = refl;
  east = refl;
  utc = refl;
}

text_written : codes text ≡ written created
unfolding codes written
text_written = refl

string_to_time_hook-written_example :
    (string_to_time_hook {Data = String} time_target (string_value text)
      ≡ ok (time_value (instant created)))
    × (string_to_time_hook {Data = String} other_target (string_value text)
        ≡ ok (string_value text))
string_to_time_hook-written_example =
    string_to_time_hook-written String created text (string_value text) created-IsUtc text_written

no_time_refused :
    string_to_time_hook {Data = String} time_target (string_value "yesterday") ≡ err bad_time
unfolding string_to_time_hook parse_rfc3339 is_digit
no_time_refused = refl
