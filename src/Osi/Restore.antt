-- ===== src/Osi/Restore.antt =====
-- Invariants of the interface list of source/osi.c: the names stay distinct, and the predefined
-- interfaces can be restored.
use u_acpi.Base.{
  ℕ, ◌≡◌, refl, ap, ◌∙◌, Bool, true, false, List, [], ◌∷◌, none, some, length, drop, ok, arith,
}
use mathlib.Core.List.{append-nil}
use u_acpi.Host.{LockHost, MemoryHost}
use u_acpi.Osi.Table.{
  Interface, find_interface, set_disabled, set_host_disabled, unlink, configure, reset_all,
}
use u_acpi.Osi.Names.{
  Distinct, find-Lacks, set_disabled-Distinct, set_host_disabled-Distinct, configure-Distinct,
  unlink-Distinct,
}
use u_acpi.Osi.{
  State, initialize, deinitialize, install_interface, uninstall_interface, enable_host_interface,
  disable_host_interface, set_query_handler, bulk_configure_interfaces, handle_osi,
}
use u_acpi.Osi.Calls.{
  Call, installs, uninstalls, enables, disables, sets_handler, configures, queries, step, run,
}

reset_all-set_disabled :
    (n : List ℕ) (d : Bool) (is : List Interface) → reset_all (set_disabled n d is) ≡ reset_all is
unfolding reset_all set_disabled
reset_all-set_disabled n d [] = refl
reset_all-set_disabled n d (i ∷ is) = ground (arith, reset_all-set_disabled n d is)

reset_all-set_host_disabled :
    (t : ℕ) (d : Bool) (is : List Interface) → reset_all (set_host_disabled t d is) ≡ reset_all is
unfolding reset_all set_host_disabled
reset_all-set_host_disabled t d [] = refl
reset_all-set_host_disabled t d (i ∷ is) = ground (arith, reset_all-set_host_disabled t d is)

reset_all-configure :
    (d : Bool) (k : ℕ) (is : List Interface) → reset_all (configure d k is) ≡ reset_all is
unfolding reset_all configure
reset_all-configure d k [] = refl
reset_all-configure d k (i ∷ is) = ground (arith, reset_all-configure d k is)

-- What the search finds can be unlinked.
abbrev finds_dynamic : List ℕ → List Interface → Bool
finds_dynamic n is = elim (find_interface n is) [ none ↦ false | some i ↦ i.dynamic ]

reset_all-unlink :
    (n : List ℕ) (is : List Interface)
    → finds_dynamic n is ≡ true
    → reset_all (unlink n is) ≡ reset_all is
unfolding reset_all unlink find_interface
reset_all-unlink n [] d = refl
reset_all-unlink n (x ∷ is) d = ground (arith, reset_all-unlink n is)

drop-length {ℓ} : {A : Type ℓ} (xs : List A) → drop (length xs) xs ≡ []
drop-length [] = refl
drop-length (x ∷ xs) = drop-length xs

module _ {W : Type 0} (h : LockHost W) (m : MemoryHost W) where
  restorable_install :
      (name : List ℕ) (kind : ℕ) (s : State W)
      → reset_all (install_interface h m name kind s).1.registered ≡ reset_all s.registered
  unfolding install_interface reset_all
  restorable_install name kind s = ground (arith, reset_all-set_disabled name false s.registered)

  restorable_uninstall :
      (name : List ℕ) (s : State W)
      → reset_all (uninstall_interface h m name s).1.registered ≡ reset_all s.registered
  unfolding uninstall_interface
  restorable_uninstall name s =
      ground
        (arith, reset_all-set_disabled name true s.registered, reset_all-unlink name s.registered)

  -- A call changes flags and dynamic interfaces only: what a reset would leave stays the same.
  restorable_step :
      (c : Call W) (s : State W) → reset_all (step h m c s).registered ≡ reset_all s.registered
  unfolding step enable_host_interface disable_host_interface set_query_handler
      bulk_configure_interfaces handle_osi
  restorable_step (installs name kind) s = restorable_install name kind s
  restorable_step (uninstalls name) s = restorable_uninstall name s
  restorable_step (enables type) s =
      ground (arith, reset_all-set_host_disabled type false s.registered)
  restorable_step (disables type) s =
      ground (arith, reset_all-set_host_disabled type true s.registered)
  restorable_step (sets_handler handler) s = ground arith
  restorable_step (configures disable kind) s =
      ground (arith, reset_all-configure disable kind s.registered)
  restorable_step (queries name) s = ground arith

  step-predefined : (c : Call W) (s : State W) → (step h m c s).predefined ≡ s.predefined
  unfolding step install_interface uninstall_interface enable_host_interface disable_host_interface
      set_query_handler bulk_configure_interfaces handle_osi
  step-predefined (installs name kind) s = ground arith
  step-predefined (uninstalls name) s = ground arith
  step-predefined (enables type) s = ground arith
  step-predefined (disables type) s = ground arith
  step-predefined (sets_handler handler) s = ground arith
  step-predefined (configures disable kind) s = ground arith
  step-predefined (queries name) s = ground arith

  run-predefined : (cs : List (Call W)) (s : State W) → (run h m cs s).predefined ≡ s.predefined
  unfolding run
  run-predefined [] s = refl
  run-predefined (c ∷ cs) s = run-predefined cs (step h m c s) ∙ step-predefined c s

  restorable_run :
      (cs : List (Call W)) (s : State W)
      → reset_all (run h m cs s).registered ≡ reset_all s.registered
  unfolding run
  restorable_run [] s = refl
  restorable_run (c ∷ cs) s = restorable_run cs (step h m c s) ∙ restorable_step c s

  initialize-registered :
      (s : State W) → (initialize h m s).0 ≡ ok → (initialize h m s).1.registered ≡ s.predefined
  unfolding initialize
  initialize-registered s e = ground arith

  -- From a state that lists the static array in its initial form, whatever calls were made, the
  -- deinitialization empties the list and gives the array its initial form back, so that a later
  -- initialization that returns OK lists the same interfaces.
  pub deinitialize-run :
      (cs : List (Call W)) (s : State W)
      → s.registered ≡ s.predefined
      → reset_all s.predefined ≡ s.predefined
      → let t = deinitialize h m (run h m cs s) in
        (t.registered ≡ [])
        × (t.predefined ≡ s.predefined)
        × ((initialize h m t).0 ≡ ok → (initialize h m t).1.registered ≡ s.predefined)
  unfolding deinitialize initialize
  deinitialize-run cs s e r =
      let kept : reset_all (run h m cs s).registered ≡ s.predefined =
        restorable_run cs s ∙ ap reset_all e ∙ r in
      let array : (deinitialize h m (run h m cs s)).predefined ≡ s.predefined =
        unfold deinitialize in
        rw (kept, run-predefined cs s, drop-length s.predefined) (append-nil s.predefined) in
      (refl, array, λ q. initialize-registered (deinitialize h m (run h m cs s)) q ∙ array)

  -- No call lists two interfaces under one name.
  pub step-Distinct :
      (c : Call W) (s : State W) → Distinct s.registered → Distinct (step h m c s).registered
  unfolding step install_interface uninstall_interface enable_host_interface disable_host_interface
      set_query_handler bulk_configure_interfaces handle_osi
  step-Distinct (installs name kind) s d =
      ground (arith, find-Lacks name s.registered, set_disabled-Distinct name false s.registered d)
  step-Distinct (uninstalls name) s d =
      ground
        (arith, unlink-Distinct name s.registered d, set_disabled-Distinct name true s.registered d)
  step-Distinct (enables type) s d =
      ground (arith, set_host_disabled-Distinct type false s.registered d)
  step-Distinct (disables type) s d =
      ground (arith, set_host_disabled-Distinct type true s.registered d)
  step-Distinct (sets_handler handler) s d = ground arith
  step-Distinct (configures disable kind) s d =
      ground (arith, configure-Distinct disable kind s.registered d)
  step-Distinct (queries name) s d = ground arith
