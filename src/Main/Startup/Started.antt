-- ===== src/Main/Startup/Started.antt =====
-- When `main` starts the manager, and how it ends.
use cluster_machine_approver.Prelude.{
  ◌≡◌, refl, ap, sym, ◌⊎◌, inl, inr, Bool, true, false, Option, none, some, List, [], ◌∷◌, ◌++◌,
  Memᴰ, Error, Result, ok, err, Bool-cases, subst,
}
use cluster_machine_approver.Status.Operator.{
  get_release_version, operator_version_key, release_version_env_variable_name,
}
use cluster_machine_approver.Main.Options.{Options, default_options}
use cluster_machine_approver.Main.Startup.{
  Platform, Approver, Action, set_up_controller, run_status_controller, set_version, start_manager,
  get_env, end_with, on_clientset, on_set_up, on_prepared, on_options, start_all, prepare, main,
}
use cluster_machine_approver.Main.Startup.Prepared.{Plan, prepare_sound, prepare_complete}

module _ (p : Platform) where
  -- What has to hold for the manager to be started.
  pub record CanStart (mgr : p.Manager) : Type 0 where
    pub options : Options
    pub parsed : p.parse default_options ≡ some options
    pub approver : Approver p
    pub plan : Plan p options mgr approver
    pub set_up : p.set_up_with_manager mgr ≡ none
    pub reports :
        (options.disable_status_controller ≡ true) ⊎ (p.new_clientset (p.manager_config mgr) ≡ none)

  -- The status controller's actions, if it is not disabled.
  unfoldable pub status_part : (disabled : Bool) → List (Action p)
  status_part true = []
  status_part false =
      run_status_controller
      ∷ set_version operator_version_key
          (get_release_version (get_env (p.lookup_env release_version_env_variable_name)))
      ∷ []

  -- All that `main` then does.
  unfoldable pub started : (mgr : p.Manager) → CanStart mgr → List (Action p)
  unfolding status_part
  started mgr c =
      set_up_controller c.approver ∷ status_part c.options.disable_status_controller
      ++ start_manager mgr ∷ end_with p (p.start mgr)

  not_ended : (mgr : p.Manager) (o : Option Error) → ¬ Memᴰ (start_manager mgr) (end_with p o)
  not_ended mgr none (Memᴰ.head e) = cc
  not_ended mgr none (Memᴰ.tail k) = elim k [ ]
  not_ended mgr (some x) (Memᴰ.head e) = cc
  not_ended mgr (some x) (Memᴰ.tail k) = elim k [ ]

  one_start :
      (mgr m : p.Manager) (o : Option Error)
      → Memᴰ (start_manager mgr) (start_manager m ∷ end_with p o)
      → mgr ≡ m
  one_start mgr m o (Memᴰ.head e) = cc
  one_start mgr m o (Memᴰ.tail k) = absurd (not_ended mgr o k)

  on_clientset-start :
      (mgr m : p.Manager) (r : Option Error) (o : Option Error)
      → Memᴰ (start_manager mgr) (on_clientset p r (start_manager m ∷ end_with p o))
      → (mgr ≡ m) × (r ≡ none)
  on_clientset-start mgr m (some x) o (Memᴰ.head e) = cc
  on_clientset-start mgr m (some x) o (Memᴰ.tail k) = elim k [ ]
  on_clientset-start mgr m none o (Memᴰ.head e) = cc
  on_clientset-start mgr m none o (Memᴰ.tail (Memᴰ.head e)) = cc
  on_clientset-start mgr m none o (Memᴰ.tail (Memᴰ.tail k)) = (one_start mgr m o k, refl)

  start_all-start :
      (o : Options) (mgr m : p.Manager)
      → Memᴰ (start_manager mgr) (start_all p o m)
      → (mgr ≡ m)
        × ((o.disable_status_controller ≡ true) ⊎ (p.new_clientset (p.manager_config m) ≡ none))
  unfolding start_all
  start_all-start o mgr m k = elim (Bool-cases o.disable_status_controller) [
    | inl off ↦ (one_start mgr m (p.start m) (rw off at k), inl off)
    | inr on ↦
        let (same, made) =
          on_clientset-start mgr m (p.new_clientset (p.manager_config m)) (p.start m)
            (rw on at k) in
        (same, inr made)
  ]

  on_set_up-start :
      (o : Options) (mgr m : p.Manager) (r : Option Error)
      → Memᴰ (start_manager mgr) (on_set_up p o m r)
      → (r ≡ none)
        × (mgr ≡ m)
        × ((o.disable_status_controller ≡ true) ⊎ (p.new_clientset (p.manager_config m) ≡ none))
  on_set_up-start o mgr m (some x) (Memᴰ.head e) = cc
  on_set_up-start o mgr m (some x) (Memᴰ.tail k) = elim k [ ]
  on_set_up-start o mgr m none k =
      let (same, reports) = start_all-start o mgr m k in (refl, same, reports)

  on_prepared-start :
      (o : Options) (mgr : p.Manager) (r : Result (p.Manager × Approver p))
      → p.parse default_options ≡ some o
      → prepare p o ≡ r
      → Memᴰ (start_manager mgr) (on_prepared p o r)
      → CanStart mgr
  on_prepared-start o mgr (err x) parsed prepared (Memᴰ.head e) = cc
  on_prepared-start o mgr (err x) parsed prepared (Memᴰ.tail k) = elim k [ ]
  on_prepared-start o mgr (ok (m, a)) parsed prepared (Memᴰ.head e) = cc
  on_prepared-start o mgr (ok (m, a)) parsed prepared (Memᴰ.tail k) =
      let (set_up, same, reports) = on_set_up-start o mgr m (p.set_up_with_manager m) k in
      subst CanStart (sym same) (record {
        options = o;
        parsed = parsed;
        approver = a;
        plan = prepare_sound p o m a prepared;
        set_up = set_up;
        reports = reports;
      })

  on_options-start :
      (mgr : p.Manager) (r : Option Options)
      → p.parse default_options ≡ r
      → Memᴰ (start_manager mgr) (on_options p r)
      → CanStart mgr
  on_options-start mgr none parsed (Memᴰ.head e) = cc
  on_options-start mgr none parsed (Memᴰ.tail k) = elim k [ ]
  on_options-start mgr (some o) parsed k = on_prepared-start o mgr (prepare p o) parsed refl k

  reports_with :
      (mgr : p.Manager) (c : CanStart mgr) (disabled : Bool)
      → c.options.disable_status_controller ≡ disabled
      → start_all p c.options mgr
        ≡ status_part disabled ++ start_manager mgr ∷ end_with p (p.start mgr)
  unfolding start_all status_part
  reports_with mgr c true off = rw off refl
  reports_with mgr c false on = elim c.reports [ inl off ↦ cc | inr made ↦ rw (on, made) refl ]

-- `main` starts the manager exactly when the flags parse, everything before the controllers succeeds
-- as planned, the controller is set up, and the status controller is disabled or its client can be
-- made. It has then set up the one controller with the planned clients, groups and configuration, has
-- started the status controller and set its version unless it is disabled, and, once the manager
-- returns, closes the stop channel if there is no error and ends with the error otherwise.
pub main_starts_iff :
    (p : Platform) (mgr : p.Manager)
    → (Memᴰ (start_manager mgr) (main p) → CanStart p mgr)
      × ((c : CanStart p mgr) → main p ≡ started p mgr c)
unfolding main started
main_starts_iff p mgr = (
  on_options-start p mgr (p.parse default_options) refl,
  λ c.
      rw (c.parsed, prepare_complete p c.options mgr c.approver c.plan, c.set_up)
        (ap (λ l. set_up_controller c.approver ∷ l)
          (reports_with p mgr c c.options.disable_status_controller refl)),
)
