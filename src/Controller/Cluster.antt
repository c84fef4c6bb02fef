-- ===== src/Controller/Cluster.antt =====
-- The program in its cluster: `Reconcile` against the requests that the API server stores, while
-- others create, change and delete requests.
pub mod Abstract
pub mod Refines
pub mod Grounded
pub mod Identity
use cluster_machine_approver.Prelude.{
  Result, ℕ, zero, suc, ◌-◌, ◌≡◌, true, false, Option, none, some, List, [], ◌∷◌, Memᴰ, String,
  Error, length,
}
use cluster_machine_approver.Kube.{Csr, Certificate, CertPool}
use cluster_machine_approver.Kube.Outside.{Libs}
use cluster_machine_approver.CsrCheck.Conditions.{is_approved_by_cma}
use cluster_machine_approver.Controller.Limits.{State}
use cluster_machine_approver.Controller.Approve.{CertificatesApi}
use cluster_machine_approver.Controller.Reconcile.{CertificateApprover, reconcile}

-- What the server returns for a name.
abbrev pub Store : Type 0
Store = String → Option Csr

-- A request without its conditions: what its author has asked for.
unfoldable pub bare : Csr → Csr
bare csr = record csr { conditions = [] }

-- The effect of an approval that the server accepts. It changes the conditions of the stored request
-- of that name and nothing else.
pub record ApiServer : Type 0 where
  pub update : Csr → Store → Store
  pub updated :
      (x y : Csr) (s : Store)
      → s x.name ≡ some y
      → update x s x.name ≡ some (record y { conditions = x.conditions })
  pub elsewhere : (x : Csr) (s : Store) (n : String) → ¬ (n ≡ x.name) → update x s n ≡ s n

pub record Cluster : Type 0 where
  pub store : Store
  pub state : State

abbrev pub take : ℕ → List Csr → List Csr
take zero xs = []
take (suc n) [] = []
take (suc n) (x ∷ xs) = x ∷ take n xs

-- What was sent between two states of the program, the last first.
abbrev pub new_sent : (before after : List Csr) → List Csr
new_sent before after = take (length after - length before) after

abbrev apply_if : ApiServer → Option Error → Csr → Store → Store
apply_if server none x s = server.update x s
apply_if server (some e) x s = s

-- The server refuses the update of a request that was deleted, or replaced, since it was read.
abbrev pub RefusesConflicts : CertificatesApi → (sent : List Csr) → Store → Type 0
RefusesConflicts api sent s =
    (x : Csr)
    → Memᴰ x sent
    → api.update_approval x ≡ none
    → (y : Csr) × (s x.name ≡ some y) × (bare y ≡ bare x)

-- The store once the server has answered what was sent.
abbrev pub deliver : ApiServer → CertificatesApi → List Csr → Store → Store
deliver server api [] s = s
deliver server api (x ∷ xs) s = apply_if server (api.update_approval x) x (deliver server api xs s)

-- The cluster after a reconcile.
unfoldable pub after_reconcile :
    Libs → ApiServer → CertificateApprover → (name : String) → Cluster → Cluster
after_reconcile lib server m name c =
    let state = (reconcile lib m name c.state).0 in
    record {
      store = deliver server m.certificates (new_sent c.state.sent state.sent) c.store;
      state = state;
    }

-- What others may do to the request of a name: delete it, create one that this program has not
-- approved, or change its conditions without writing this program's approval.
pub data OthersMay : Option Csr → Option Csr → Type 0 where
  unchanged : {o : Option Csr} → OthersMay o o
  deleted : {o : Option Csr} → OthersMay o none
  created : (y : Csr) → is_approved_by_cma y ≡ false → OthersMay none (some y)
  changed :
      (y y' : Csr)
      → bare y' ≡ bare y
      → (is_approved_by_cma y' ≡ true → is_approved_by_cma y ≡ true)
      → OthersMay (some y) (some y')

-- What the kubelets answer while one reconcile runs, and which certificates are then valid.
pub record Kubelets : Type 0 where
  pub verify : Certificate → CertPool → Option Error
  pub dial : String → CertPool → String → Result Certificate

-- What a reconcile calls, with the kubelets as they are while it runs.
abbrev pub during : Libs → Kubelets → Libs
during lib k = record lib { verify = k.verify; dial = k.dial }

-- What happens in one step of the cluster: the reconcile of a name, with the answers of its clients
-- and of the kubelets, or something that others do.
pub data ClusterEvent : Type 1 where
  reconciled : Kubelets → CertificateApprover → (name : String) → ClusterEvent
  by_others : ClusterEvent

-- One step of the cluster. A reconcile reads whatever its clients answer, which need not be what is
-- stored, nor what an earlier reconcile has read.
pub data Step (lib : Libs) (server : ApiServer) (c : Cluster)
    : ClusterEvent → Cluster → Type 1 where
  reconcile_step :
      (k : Kubelets) (m : CertificateApprover) (name : String)
      → RefusesConflicts m.certificates
          (new_sent c.state.sent (reconcile (during lib k) m name c.state).0.sent)
          c.store
      → Step lib server c (reconciled k m name) (after_reconcile (during lib k) server m name c)
  others_step :
      (s : Store)
      → ((n : String) → OthersMay (c.store n) (s n))
      → Step lib server c by_others (record c { store = s })

-- A run, with what has happened in it, the last first.
pub data Reach (lib : Libs) (server : ApiServer) (c : Cluster)
    : List ClusterEvent → Cluster → Type 1 where
  here : Reach lib server c [] c
  next :
      {past : List ClusterEvent} {event : ClusterEvent} {d e : Cluster}
      → Reach lib server c past d
      → Step lib server d event e
      → Reach lib server c (event ∷ past) e
