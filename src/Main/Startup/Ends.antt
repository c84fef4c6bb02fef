-- ===== src/Main/Startup/Ends.antt =====
-- All that `main` can do, by what its calls answer.
use cluster_machine_approver.Prelude.{
  ◌≡◌, ◌↔◌, refl, sym, ◌∙◌, inl, inr, false, none, some, List, [], ◌∷◌, Error, Result, ok, err,
  csr_controller_failed, run_manager_failed, ◌++◌, Bool-cases, Option-cases, subst,
}
use cluster_machine_approver.Main.Options.{Options, default_options}
use cluster_machine_approver.Main.Startup.{
  Platform, Approver, Action, exit_on_flags, fatal, set_up_controller, start_manager, close_stop,
  start_all, prepare, main,
}
use cluster_machine_approver.Main.Startup.Prepared.{Plan, prepare_sound, prepare_complete}
use cluster_machine_approver.Main.Startup.Failures.{prepare_fails_iff}
use cluster_machine_approver.Main.Startup.Stages.{FailsFirst}
use cluster_machine_approver.Main.Startup.Started.{CanStart, status_part, started, main_starts_iff}

module _ (p : Platform) where
  -- What is done, in order, and why no more is done.
  pub data Outcome : List (Action p) → Type 0 where
    bad_flags : p.parse default_options ≡ none → Outcome (exit_on_flags ∷ [])
    not_prepared :
        (o : Options) (e : Error)
        → p.parse default_options ≡ some o
        → FailsFirst p o e
        → Outcome (fatal e ∷ [])
    not_set_up :
        (o : Options) (mgr : p.Manager) (a : Approver p) (e : Error)
        → p.parse default_options ≡ some o
        → Plan p o mgr a
        → p.set_up_with_manager mgr ≡ some e
        → Outcome (set_up_controller a ∷ fatal (csr_controller_failed e) ∷ [])
    no_clientset :
        (o : Options) (mgr : p.Manager) (a : Approver p) (e : Error)
        → p.parse default_options ≡ some o
        → Plan p o mgr a
        → p.set_up_with_manager mgr ≡ none
        → o.disable_status_controller ≡ false
        → p.new_clientset (p.manager_config mgr) ≡ some e
        → Outcome (set_up_controller a ∷ fatal e ∷ [])
    not_run :
        (mgr : p.Manager) (c : CanStart p mgr) (e : Error)
        → p.start mgr ≡ some e
        → Outcome (
            set_up_controller c.approver ∷ status_part p c.options.disable_status_controller
            ++ start_manager mgr ∷ fatal (run_manager_failed e) ∷ [])
    returned :
        (mgr : p.Manager) (c : CanStart p mgr)
        → p.start mgr ≡ none
        → Outcome (
            set_up_controller c.approver ∷ status_part p c.options.disable_status_controller
            ++ start_manager mgr ∷ close_stop ∷ [])

  started-Outcome : (mgr : p.Manager) → CanStart p mgr → Outcome (main p)
  unfolding started
  started-Outcome mgr c =
      subst Outcome (sym ((main_starts_iff p mgr).1 c)) (elim (Option-cases (p.start mgr)) [
        | inl stopped ↦ rw stopped (returned mgr c stopped)
        | inr (e, failed) ↦ rw failed (not_run mgr c e failed)
      ])

  module _ (o : Options) (parsed : p.parse default_options ≡ some o) where
    module _ (mgr : p.Manager) (a : Approver p) (plan : Plan p o mgr a) where
      set_up-Outcome : p.set_up_with_manager mgr ≡ none → Outcome (main p)
      unfolding main start_all
      set_up-Outcome set_up = elim (Bool-cases o.disable_status_controller) [
        | inl off ↦ started-Outcome mgr (record {
          options = o;
          parsed = parsed;
          approver = a;
          plan = plan;
          set_up = set_up;
          reports = inl off;
        })
        | inr on ↦ elim (Option-cases (p.new_clientset (p.manager_config mgr))) [
          | inl made ↦ started-Outcome mgr (record {
            options = o;
            parsed = parsed;
            approver = a;
            plan = plan;
            set_up = set_up;
            reports = inr made;
          })
          | inr (e, failed) ↦
              rw (parsed, prepare_complete p o mgr a plan, set_up, on, failed)
                (no_clientset o mgr a e parsed plan set_up on failed)
        ]
      ]

      planned-Outcome : Outcome (main p)
      unfolding main
      planned-Outcome = elim (Option-cases (p.set_up_with_manager mgr)) [
        | inl set_up ↦ set_up-Outcome set_up
        | inr (e, failed) ↦
            rw (parsed, prepare_complete p o mgr a plan, failed)
              (not_set_up o mgr a e parsed plan failed)
      ]

    prepared-Outcome : (r : Result (p.Manager × Approver p)) → prepare p o ≡ r → Outcome (main p)
    unfolding main
    prepared-Outcome (ok (mgr, a)) h = planned-Outcome mgr a (prepare_sound p o mgr a h)
    prepared-Outcome (err e) h =
        rw (parsed, h) (not_prepared o e parsed ((prepare_fails_iff p o e).0 h))

  main-Outcome : Outcome (main p)
  unfolding main
  main-Outcome = elim (Option-cases (p.parse default_options)) [
    | inl refused ↦ rw refused (bad_flags refused)
    | inr (o, parsed) ↦ prepared-Outcome o parsed (prepare p o) refl
  ]

  Outcome-main : (actions : List (Action p)) → Outcome actions → main p ≡ actions
  unfolding main start_all started
  Outcome-main actions (bad_flags refused) = rw refused refl
  Outcome-main actions (not_prepared o e parsed fails) =
      rw (parsed, (prepare_fails_iff p o e).1 fails) refl
  Outcome-main actions (not_set_up o mgr a e parsed plan failed) =
      rw (parsed, prepare_complete p o mgr a plan, failed) refl
  Outcome-main actions (no_clientset o mgr a e parsed plan set_up on failed) =
      rw (parsed, prepare_complete p o mgr a plan, set_up, on, failed) refl
  Outcome-main actions (not_run mgr c e failed) = (main_starts_iff p mgr).1 c ∙ rw failed refl
  Outcome-main actions (returned mgr c stopped) = (main_starts_iff p mgr).1 c ∙ rw stopped refl

-- What `main` does, in order, is always one of these, and exactly the one that its calls' answers lead
-- to. If the flags do not parse, it only exits. If a call before the controllers fails, it only ends
-- with the error that the first such call leads to. If the controller cannot be set up, or the status
-- controller is wanted and its client cannot be made, it ends with that error after the controller,
-- and starts no manager. Otherwise it sets up the controller, has the status controller run with its
-- version set unless it is disabled, starts the manager, and ends with the manager's error or, if there
-- is none, closes the stop channel and returns.
pub main_ends_iff :
    (p : Platform) (actions : List (Action p)) → (main p ≡ actions) ↔ Outcome p actions
main_ends_iff p actions = (λ e. subst (Outcome p) e (main-Outcome p), Outcome-main p actions)
