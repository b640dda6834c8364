-- ===== src/Resource/IoScheduler/Settles.antt =====
-- The I/O scheduler converges, on a kernel that shows the scheduler it has accepted in brackets.
use node_configurator.Prelude.{
  false, List, [], ◌∷◌, none, ◌≡◌, refl, ap, ◌∙◌, arith, ◌⊎◌, inl, inr, All, Bool-cases,
  Option-cases,
}
use node_configurator.Text.{Text, is_nil}
use node_configurator.Text.Equality.{text_eq_refl}
use node_configurator.System.{value, done, Os}
use node_configurator.System.Post.{Post, Fallible-cases, Outcome-cases, Anything}
use node_configurator.System.Loop.Laws.{Keeps, Keeps-refl, for_each-IsRight}
use node_configurator.Sysutil.Paths.{Env}
use node_configurator.Resource.{is_failed, is_changed, is_would_change}
use node_configurator.Resource.IoScheduler.{
  scheduler_path, read_scheduler, nvme_devices, drifts, drift_of, check_devices, check,
  set_scheduler, set_schedulers, apply, io_scheduler_resource,
}
use node_configurator.Resource.IoScheduler.Active.{IsShown, parse_scheduler-IsShown}
use node_configurator.Engine.Run.Converge.{IsSettled, Converges}

-- What the resource relies on in the kernel. A scheduler that is accepted is shown as the active one;
-- the lists of other devices stay the same, and so do the devices.
pub record HasSchedulers (os : Os) (env : Env) (scheduler : Text) : Type 0 where
  pub shows :
      (dev : Text) (s t : os.State)
      → os.write_file (scheduler_path os env scheduler dev) scheduler s ≡ done tt t
      → (raw : Text) × (os.read_file t (scheduler_path os env scheduler dev) ≡ value raw)
        × IsShown scheduler raw
  pub others :
      (dev other : Text) (s t : os.State)
      → os.write_file (scheduler_path os env scheduler dev) scheduler s ≡ done tt t
      → (scheduler_path os env scheduler other ≡ scheduler_path os env scheduler dev)
        ⊎ (os.read_file t (scheduler_path os env scheduler other)
            ≡ os.read_file s (scheduler_path os env scheduler other))
  pub same_devices :
      (dev : Text) (s t : os.State)
      → os.write_file (scheduler_path os env scheduler dev) scheduler s ≡ done tt t
      → nvme_devices os env scheduler t ≡ nvme_devices os env scheduler s

module _ (os : Os) (env : Env) (scheduler : Text) (kernel : HasSchedulers os env scheduler) where
  open os use {State, read_file, write_file}

  -- There is nothing to change on the device.
  OnScheduler : State → Text → Type 0
  OnScheduler s dev = drifts os env scheduler s dev ≡ none

  abbrev Kept : State → State → Type 0
  Kept = Keeps OnScheduler (nvme_devices os env scheduler)

  shown-OnScheduler :
      (t : State) (dev raw : Text)
      → read_file t (scheduler_path os env scheduler dev) ≡ value raw
      → IsShown scheduler raw
      → OnScheduler t dev
  unfolding OnScheduler drifts read_scheduler
  shown-OnScheduler t dev raw e h =
      rw
        (drifts, read_scheduler, e, parse_scheduler-IsShown scheduler raw h, text_eq_refl scheduler)

  same-OnScheduler :
      (s t : State) (dev : Text)
      → read_file t (scheduler_path os env scheduler dev)
        ≡ read_file s (scheduler_path os env scheduler dev)
      → OnScheduler s dev
      → OnScheduler t dev
  unfolding OnScheduler drifts read_scheduler
  same-OnScheduler s t dev e h = rw (drifts, read_scheduler, e) h

  written-OnScheduler :
      (dev : Text) (s t : State)
      → write_file (scheduler_path os env scheduler dev) scheduler s ≡ done tt t
      → OnScheduler t dev
  written-OnScheduler dev s t w =
      let (raw, e, h) = kernel.shows dev s t w in shown-OnScheduler t dev raw e h

  written-Kept :
      (dev : Text) (s t : State)
      → write_file (scheduler_path os env scheduler dev) scheduler s ≡ done tt t
      → Kept s t
  written-Kept dev s t w = record {
    kept = λ d g. elim (kernel.others dev d s t w) [
      | inl e ↦
          let (raw, q, h) = kernel.shows dev s t w in
          shown-OnScheduler t d raw (ap (read_file t) e ∙ q) h
      | inr e ↦ same-OnScheduler s t d e g
    ];
    same = kernel.same_devices dev s t w;
  }

  set_scheduler_lem :
      (dev : Text) (s : State)
      → Post (λ _ t. OnScheduler t dev × Kept s t) Anything (set_scheduler os env scheduler dev s)
  unfolding set_scheduler
  set_scheduler_lem dev s = elim (Option-cases (drifts os env scheduler s dev)) [
    | inl e ↦
        rw (Post, set_scheduler, e)
          (unfold OnScheduler in e, Keeps-refl OnScheduler (nvme_devices os env scheduler) s)
    | inr (c, e) ↦
        elim (Outcome-cases (write_file (scheduler_path os env scheduler dev) scheduler s)) [
          | inl (a, t, w) ↦
              rw (Post, set_scheduler, e, w) (written-OnScheduler dev s t w, written-Kept dev s t w)
          | inr (x, t, w) ↦ rw (Post, set_scheduler, e, w) tt
        ]
  ]

  set_schedulers_lem :
      (devs : List Text) (s : State)
      → Post
          (λ _ t. All (OnScheduler t) devs × Kept s t)
          Anything
          (set_schedulers os env scheduler devs s)
  unfolding set_schedulers
  set_schedulers_lem =
      for_each-IsRight OnScheduler (nvme_devices os env scheduler) (set_scheduler os env scheduler)
        set_scheduler_lem

  drift_of-All :
      (s : State) (devs : List Text)
      → All (OnScheduler s) devs
      → drift_of os env scheduler s devs ≡ []
  unfolding drift_of OnScheduler
  drift_of-All s [] h = refl
  drift_of-All s (dev ∷ devs) h = rw (drift_of, h.0) (drift_of-All s devs h.1)

  IsSettled-of_devices :
      (t : State) (devs : List Text)
      → is_nil scheduler ≡ false
      → nvme_devices os env scheduler t ≡ value devs
      → drift_of os env scheduler t devs ≡ []
      → IsSettled (io_scheduler_resource os env scheduler) t
  unfolding check check_devices is_failed is_changed
  IsSettled-of_devices t devs n e d = record {
    no_error = rw (check, n, e, check_devices, d) (ground arith);
    no_failure = rw (check, n, e, check_devices, d) (ground arith);
    no_change = rw (check, n, e, check_devices, d) (ground arith);
  }

  apply-IsSettled :
      (s t : State)
      → is_nil scheduler ≡ false
      → apply os env scheduler s ≡ done tt t
      → IsSettled (io_scheduler_resource os env scheduler) t
  unfolding apply
  apply-IsSettled s t n a = elim (Fallible-cases (nvme_devices os env scheduler s)) [
    | inl (devs, e) ↦
        let (on, k) = rw (rw (apply, n, e) at a) at (set_schedulers_lem devs s) in
        IsSettled-of_devices t devs n (k.same ∙ e) (drift_of-All t devs on)
    | inr (x, e) ↦ absurd (cc (rw (apply, n, e) at a))
  ]

  -- After a successful `Apply` of an I/O scheduler, `Check` finds no device to change, where the
  -- kernel shows the scheduler that it has accepted in brackets.
  pub io_scheduler-Converges : Converges (io_scheduler_resource os env scheduler)
  unfolding check check_devices is_failed is_changed is_would_change
  io_scheduler-Converges = record {
    read_only = λ s. ground arith;
    fails_with_error = λ s x e. ground arith;
    no_error_no_failure = λ s e. ground arith;
    only_drift = λ s e w. ground arith;
    settles = λ s t w a. elim (Bool-cases (is_nil scheduler)) [
      | inl n ↦ absurd (cc (rw (check, n) at w))
      | inr n ↦ apply-IsSettled s t n a
    ];
  }
