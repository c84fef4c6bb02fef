-- ===== src/CsrCheck/ClientFlow.antt =====
-- `authorizeNodeClientCSR`: the certificate with which a new node speaks to the API server.
pub mod Laws
use cluster_machine_approver.Prelude.{
  Bool, true, false, not, Option, none, some, List, String, ◌==◌, Error, api_not_found,
  get_node_failed, no_machine_for_node, Result, ok, err, if◌then◌else◌,
}
use cluster_machine_approver.Prelude.Int.{pos, ◌+ℤ◌, ◌-ℤ◌}
use cluster_machine_approver.GoStd.Strings.{trim_prefix}
use cluster_machine_approver.Kube.{Time, Csr, CertificateRequest, Node, ObjectReference}
use cluster_machine_approver.Kube.Outside.{Libs, Client}
use cluster_machine_approver.MachineHandler.{Machine, find_matching_machine_from_internal_dns}
use cluster_machine_approver.CsrCheck.{node_user_prefix, max_machine_clock_skew, max_machine_delta}
use cluster_machine_approver.CsrCheck.Requester.{is_req_from_node_bootstrapper}
use cluster_machine_approver.CsrCheck.Conditions.{in_time_span}

-- The program's pair of a decision and an error.
abbrev pub Verdict : Type 0
Verdict = Bool × Option Error

abbrev is_some_ref : Option ObjectReference → Bool
is_some_ref none = false
is_some_ref (some r) = true

-- The checks of the machine: no node yet, and a request made close to its creation.
unfoldable pub judge_machine : Csr → Machine → Verdict
judge_machine req machine =
    if is_some_ref machine.node_ref
    then (false, none)
    else let start = machine.creation_timestamp -ℤ pos max_machine_clock_skew in
      let end = machine.creation_timestamp +ℤ pos max_machine_delta in
      if not (in_time_span start end req.creation_timestamp) then (false, none) else (true, none)

abbrev on_machine : (node_name : String) → Csr → Result Machine → Verdict
on_machine node_name req (err e) = (false, some (no_machine_for_node node_name))
on_machine node_name req (ok machine) = judge_machine req machine

-- The node must be known not to exist; any other error asks for another try.
abbrev on_node : (node_name : String) → (absent : Verdict) → Result Node → Verdict
on_node node_name absent (ok node) = (false, none)
on_node node_name absent (err (api_not_found message)) = absent
on_node node_name absent (err e) = (false, some (get_node_failed node_name))

unfoldable pub authorize_node_client_csr :
    Libs → Client → List Machine → Csr → CertificateRequest → Verdict
unfolding judge_machine
authorize_node_client_csr lib c machines req csr =
    if not (is_req_from_node_bootstrapper lib req)
    then (false, none)
    else let node_name = trim_prefix csr.common_name node_user_prefix in
      if node_name == ""
      then (false, none)
      else on_node node_name
          (on_machine node_name req (find_matching_machine_from_internal_dns machines node_name))
          (c.get_node node_name)
