-- ===== src/Controller/Reconcile.antt =====
-- `Reconcile`, `reconcileCSR` and `reconcileLimitsUncached`
pub mod OneRequest
pub mod Safety
pub mod Runs
pub mod Kept
pub mod Variables
pub mod Uint32
pub mod Once
pub mod Order
pub mod Relisted
pub mod Disabled
pub mod Noticed
pub mod Denied
use cluster_machine_approver.Prelude.{
  Bool, true, false, Option, none, some, List, [], ◌∷◌, ◌++◌, String, ◌==◌, Error, parse_failed,
  approve_failed, reconcile_failed, list_csrs_failed, list_machines_failed, list_nodes_failed,
  certificates_client_failed, uncached_list_failed, Result, ok, err, ◌>>=◌, wrap_error, find,
  if◌then◌else◌,
}
use cluster_machine_approver.Kube.{Time, Csr, CertificateRequest, Node}
use cluster_machine_approver.Kube.Outside.{Libs, Client}
use cluster_machine_approver.Config.{ClusterMachineApproverConfig}
use cluster_machine_approver.MachineHandler.{Machine, GroupVersion, MachineApi, list_machines}
use cluster_machine_approver.CsrCheck.ClientFlow.{Verdict}
use cluster_machine_approver.CsrCheck.Conditions.{is_approved}
use cluster_machine_approver.CsrCheck.Authorize.{authorize_csr}
use cluster_machine_approver.Controller.Limits.{State, reconcile_limits}
use cluster_machine_approver.Controller.Approve.{CertificatesApi, approve}
use cluster_machine_approver.Controller.KubeletCa.{get_kubelet_ca, parse_csr}

-- The clients with the answers that they give in one reconcile, and the clock at its three reads.
pub record CertificateApprover : Type 1 where
  pub node_client : Client
  pub certificates : CertificatesApi
  pub machine_api : MachineApi
  pub machine_namespace : String
  pub config : ClusterMachineApproverConfig
  pub api_group_versions : List GroupVersion
  pub now_at_start : Time
  pub now_at_approval : Time
  pub now_at_end : Time

abbrev pub wrap_outcome : (Error → Error) → State × Option Error → State × Option Error
wrap_outcome f (s, none) = (s, none)
wrap_outcome f (s, some e) = (s, some (f e))

-- Only a positive decision goes on to approve.
abbrev pub on_verdict : Verdict → (approved : State × Option Error) → State → State × Option Error
on_verdict (true, e) approved s = approved
on_verdict (false, e) approved s = (s, e)

abbrev on_parsed :
    (CertificateRequest → State × Option Error)
    → Result CertificateRequest
    → State
    → State × Option Error
on_parsed go_on (err e) s = (s, some (parse_failed e))
on_parsed go_on (ok parsed_csr) s = go_on parsed_csr

unfoldable pub reconcile_csr :
    Libs → CertificateApprover → Csr → List Machine → State → State × Option Error
reconcile_csr lib m csr machines s =
    if is_approved csr
    then (s, none)
    else on_parsed
        (λ parsed_csr.
          let kubelet_ca = get_kubelet_ca lib m.node_client in
          on_verdict
            (authorize_csr lib m.node_client m.config machines (some csr) (some parsed_csr)
              kubelet_ca)
            (wrap_outcome (approve_failed csr.name)
              (approve m.certificates m.now_at_approval csr s))
            s)
        (parse_csr lib csr) s

-- The loop over the API groups.
unfoldable pub list_all_machines :
    MachineApi → (namespace : String) → List GroupVersion → Result (List Machine)
list_all_machines api namespace [] = ok []
list_all_machines api namespace (gv ∷ gvs) = do
  new_machines ← wrap_error list_machines_failed (list_machines api namespace gv)
  rest ← list_all_machines api namespace gvs
  ok (new_machines ++ rest)

abbrev limits_of_list :
    Libs
    → (now : Time) → List Machine
    → List Node
    → Result (List Csr)
    → State
    → State × Option Error
limits_of_list lib now machines nodes (err e) s = (s, some (uncached_list_failed e))
limits_of_list lib now machines nodes (ok csrs) s =
    ((reconcile_limits lib now machines nodes csrs s).0, none)

abbrev on_client : Option Error → (State × Option Error) → State → State × Option Error
on_client (some e) go_on s = (s, some (certificates_client_failed e))
on_client none go_on s = go_on

unfoldable pub reconcile_limits_uncached :
    Libs → CertificateApprover → List Machine → List Node → State → State × Option Error
reconcile_limits_uncached lib m machines nodes s =
    on_client m.certificates.new_for_config
      (limits_of_list lib m.now_at_end machines nodes m.certificates.list s) s

abbrev and_then : State × Option Error → (State → State × Option Error) → State × Option Error
and_then (s, some e) k = (s, some (reconcile_failed e))
and_then (s, none) k = k s

-- The first request of the name is reconciled, and with it the loop ends.
abbrev on_found :
    Libs
    → CertificateApprover
    → List Machine
    → List Node
    → Option Csr
    → State
    → State × Option Error
on_found lib m machines nodes none s = (s, none)
on_found lib m machines nodes (some csr) s =
    and_then (reconcile_csr lib m csr machines s)
      (λ s'. reconcile_limits_uncached lib m machines nodes s')

-- What `Reconcile` has read before it decides.
pub record Inputs : Type 0 where
  pub csrs : List Csr
  pub machines : List Machine
  pub nodes : List Node

unfoldable pub read_inputs : CertificateApprover → Result Inputs
unfolding list_all_machines
read_inputs m = do
  csrs ← wrap_error list_csrs_failed m.node_client.list_csrs
  machines ← list_all_machines m.machine_api m.machine_namespace m.api_group_versions
  nodes ← wrap_error list_nodes_failed m.node_client.list_nodes
  ok (record { csrs = csrs; machines = machines; nodes = nodes })

unfoldable pub reconcile_inputs :
    Libs → CertificateApprover → (name : String) → Inputs → State → State × Option Error
reconcile_inputs lib m name i s =
    let (s', off_limits) = reconcile_limits lib m.now_at_start i.machines i.nodes i.csrs s in
    if off_limits
    then (s', none)
    else on_found lib m i.machines i.nodes (find (λ csr. csr.name == name) i.csrs) s'

abbrev on_inputs :
    (Inputs → State → State × Option Error) → Result Inputs → State → State × Option Error
on_inputs go_on (err e) s = (s, some e)
on_inputs go_on (ok i) s = go_on i s

-- `Reconcile` for the request of a name; a result with no error is never requeued.
unfoldable pub reconcile :
    Libs → CertificateApprover → (name : String) → State → State × Option Error
unfolding reconcile_inputs read_inputs
reconcile lib m name s = on_inputs (reconcile_inputs lib m name) (read_inputs m) s
