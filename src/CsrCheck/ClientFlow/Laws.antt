-- ===== src/CsrCheck/ClientFlow/Laws.antt =====
-- When a client certificate is approved.
use cluster_machine_approver.Prelude.{
  ◌≡◌, refl, ◌≢◌, ◌↔◌, inl, inr, true, none, List, Memᴰ, String, eq_iff, api_not_found, Result, ok,
  err, and_iff, arith, Bool-cases,
}
use cluster_machine_approver.Prelude.Int.{pos, ◌+ℤ◌, ◌-ℤ◌, ◌<ℤ◌, ltb_ℤ_iff}
use cluster_machine_approver.GoStd.Strings.{trim_prefix}
use cluster_machine_approver.Kube.{Time, Csr, CertificateRequest, Node}
use cluster_machine_approver.Kube.Outside.{Libs, Client}
use cluster_machine_approver.MachineHandler.{Machine, find_matching_machine_from_internal_dns}
use cluster_machine_approver.CsrCheck.{
  node_user_prefix, node_bootstrapper_username, node_bootstrapper_groups, max_machine_clock_skew,
  max_machine_delta,
}
use cluster_machine_approver.CsrCheck.Requester.{is_req_from_node_bootstrapper}
use cluster_machine_approver.CsrCheck.Conditions.{in_time_span}
use cluster_machine_approver.CsrCheck.ClientFlow.{
  Verdict, judge_machine, on_machine, on_node, authorize_node_client_csr,
}

-- An instant strictly between two others.
pub in_time_span_iff :
    (start end check : Time)
    → (in_time_span start end check ≡ true) ↔ ((start <ℤ check) × (check <ℤ end))
unfolding in_time_span
in_time_span_iff start end check = (
  λ h. let (a, b) = (and_iff _ _).0 h in ((ltb_ℤ_iff start check).0 a, (ltb_ℤ_iff check end).0 b),
  λ (a, b). (and_iff _ _).1 ((ltb_ℤ_iff start check).1 a, (ltb_ℤ_iff check end).1 b),
)

-- The bootstrapper is known by its name and by exactly its groups.
pub record IsBootstrapper (req : Csr) : Type 0 where
  pub user : req.username ≡ node_bootstrapper_username
  pub groups : (g : String) → Memᴰ g node_bootstrapper_groups ↔ Memᴰ g req.groups

pub is_req_from_node_bootstrapper_iff :
    (lib : Libs) (req : Csr) → (is_req_from_node_bootstrapper lib req ≡ true) ↔ IsBootstrapper req
unfolding is_req_from_node_bootstrapper
is_req_from_node_bootstrapper_iff lib req = (
  λ h.
      let (u, g) = (and_iff _ _).0 h in
      record {
        user = (eq_iff req.username node_bootstrapper_username).0 u;
        groups = (lib.sets.equal_iff node_bootstrapper_groups req.groups).0 g;
      },
  λ s. (and_iff _ _).1 (
    (eq_iff req.username node_bootstrapper_username).1 s.user,
    (lib.sets.equal_iff node_bootstrapper_groups req.groups).1 s.groups,
  ),
)

-- A machine that waits for its node, made less than ten seconds after the request and less than two
-- hours before it.
pub record IsFresh (req : Csr) (machine : Machine) : Type 0 where
  pub no_node : machine.node_ref ≡ none
  pub not_before :
      machine.creation_timestamp -ℤ pos max_machine_clock_skew <ℤ req.creation_timestamp
  pub not_after : req.creation_timestamp <ℤ machine.creation_timestamp +ℤ pos max_machine_delta

judge_machine_iff :
    (req : Csr) (machine : Machine)
    → (judge_machine req machine ≡ (true, none)) ↔ IsFresh req machine
unfolding judge_machine
judge_machine_iff req machine = (
  λ h.
      let (before, after) = (in_time_span_iff _ _ req.creation_timestamp).0 (ground arith) in
      record { no_node = ground arith; not_before = before; not_after = after },
  λ s. rw (s.no_node, (in_time_span_iff _ _ req.creation_timestamp).1 (s.not_before, s.not_after)),
)

-- The first certificate of a node that does not exist yet.
pub record IsNewNode (c : Client) (machines : List Machine) (req : Csr) (node : String)
    : Type 0 where
  pub bootstrapper : IsBootstrapper req
  pub named : node ≢ ""
  pub message : String
  pub absent : c.get_node node ≡ err (api_not_found message)
  pub machine : Machine
  pub found : find_matching_machine_from_internal_dns machines node ≡ ok machine
  pub fresh : IsFresh req machine

on_machine_sound :
    (node : String) (req : Csr) (r : Result Machine)
    → on_machine node req r ≡ (true, none)
    → (machine : Machine) × (r ≡ ok machine) × IsFresh req machine
on_machine_sound node req (err e) h = ground arith
on_machine_sound node req (ok machine) h = (machine, refl, (judge_machine_iff req machine).0 h)

on_node_sound :
    (node : String) (v : Verdict) (r : Result Node)
    → on_node node v r ≡ (true, none)
    → (message : String) × (r ≡ err (api_not_found message)) × (v ≡ (true, none))
on_node_sound node v (ok n) h = ground arith
on_node_sound node v (err (api_not_found message)) h = (message, refl, h)
on_node_sound node v (err _) h = ground arith

node_of : CertificateRequest → String
node_of csr = trim_prefix csr.common_name node_user_prefix

-- The client flow approves a request exactly when the node bootstrapper made it, the common name
-- without its prefix is a name for which the API server knows no node, and the first machine with
-- that internal DNS name has no node reference and was created strictly between two hours before and
-- ten seconds after the request.
pub authorize_node_client_csr_iff :
    (lib : Libs) (c : Client) (machines : List Machine) (req : Csr) (csr : CertificateRequest)
    → (authorize_node_client_csr lib c machines req csr ≡ (true, none))
      ↔ IsNewNode c machines req (trim_prefix csr.common_name node_user_prefix)
unfolding authorize_node_client_csr node_of
authorize_node_client_csr_iff lib c machines req csr = (sound, complete)
  where
    sound :
        authorize_node_client_csr lib c machines req csr ≡ (true, none)
        → IsNewNode c machines req (node_of csr)
    sound h = elim (Bool-cases (is_req_from_node_bootstrapper lib req)) [
      | inr other ↦ ground arith
      | inl boot ↦
          let named : node_of csr ≢ "" = λ e. ground (arith, eq_iff (node_of csr) "") in
          let (message, absent, h') =
            on_node_sound (node_of csr) _ (c.get_node (node_of csr)) (ground arith) in
          let (machine, found, fresh) =
            on_machine_sound (node_of csr) req
              (find_matching_machine_from_internal_dns machines (node_of csr)) h' in
          record {
            bootstrapper = (is_req_from_node_bootstrapper_iff lib req).0 boot;
            named = named;
            message = message;
            absent = absent;
            machine = machine;
            found = found;
            fresh = fresh;
          }
    ]

    complete :
        IsNewNode c machines req (node_of csr)
        → authorize_node_client_csr lib c machines req csr ≡ (true, none)
    complete s = ground (
      arith,
      (is_req_from_node_bootstrapper_iff lib req).1 s.bootstrapper,
      eq_iff (node_of csr) "",
      s.named,
      s.absent,
      s.found,
      (judge_machine_iff req s.machine).1 s.fresh,
    )

-- A yes brings no error along.
abbrev pub IsClear : Verdict → Type 0
IsClear v = v.0 ≡ true → v ≡ (true, none)

judge_machine-IsClear : (req : Csr) (m : Machine) → IsClear (judge_machine req m)
unfolding judge_machine
judge_machine-IsClear req m h = ground arith

on_machine-IsClear :
    (node : String) (req : Csr) (r : Result Machine) → IsClear (on_machine node req r)
on_machine-IsClear node req (err e) h = cc
on_machine-IsClear node req (ok m) h = judge_machine-IsClear req m h

on_node-IsClear :
    (node : String) (v : Verdict) (r : Result Node) → IsClear v → IsClear (on_node node v r)
on_node-IsClear node v (ok n) k h = cc
on_node-IsClear node v (err (api_not_found message)) k h = k h
on_node-IsClear node v (err _) k h = cc

pub authorize_node_client_csr-IsClear :
    (lib : Libs) (c : Client) (machines : List Machine) (req : Csr) (csr : CertificateRequest)
    → IsClear (authorize_node_client_csr lib c machines req csr)
unfolding authorize_node_client_csr
authorize_node_client_csr-IsClear lib c machines req csr h =
    let node = trim_prefix csr.common_name node_user_prefix in
    let judged = on_machine node req (find_matching_machine_from_internal_dns machines node) in
    ground (
      arith,
      on_node-IsClear node judged (c.get_node node)
          (on_machine-IsClear node req (find_matching_machine_from_internal_dns machines node)),
    )
