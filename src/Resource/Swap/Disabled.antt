-- ===== src/Resource/Swap/Disabled.antt =====
-- The last step of `Apply` of swap.go, which masks units, and `Apply` as a whole.
use node_configurator.Prelude.{
  not, List, [], ◌∷◌, none, ◌≡◌, refl, sym, ap, ◌∙◌, arith, Bool-cases, inl, inr, All,
}
use node_configurator.Text.{Text, codes, is_nil}
use node_configurator.System.{value, done, Os}
use node_configurator.System.Loop.{for_each}
use node_configurator.System.Loop.Laws.{Keeps, PutsRight, for_each-IsRight}
use node_configurator.System.Post.{
  Post, Post-weaken, Triple, then_next, Fallible-cases, Outcome-cases, Anything,
}
use node_configurator.Sysutil.Paths.{Env}
use node_configurator.Sysutil.Files.{HasFiles}
use node_configurator.Resource.{is_would_change}
use node_configurator.Resource.Fstab.{fstab_has_active_swap_lines}
use node_configurator.Resource.Swap.{
  active_swap_devices, active_swap_units, mask_unit, mask_units, mask_active_units, swap_off,
  report_swap, check, apply,
}
use node_configurator.Resource.Swap.Laws.{IsSwapFree}
use node_configurator.Resource.Swap.Off.{
  View, view, HasSwaps, IsOff-kept, text_of, fstab_content-content, Free, swap_off_lem,
  comment_fstab-Free,
}

module _ (os : Os) (env : Env) (files : HasFiles os) (IsMasked : os.State → Text → Type 0)
    (swaps : HasSwaps os env IsMasked) where
  open os use {State, run}

  abbrev Kept : State → State → Type 0
  Kept = Keeps IsMasked (view os env)

  mask_unit-PutsRight : (unit : Text) → PutsRight IsMasked (view os env) (mask_unit os env) unit
  unfolding mask_unit
  mask_unit-PutsRight unit s =
      elim (Outcome-cases (run (codes "systemctl") (codes "mask" ∷ unit ∷ []) s)) [
        | inl (out, t, e) ↦
            rw (Post, mask_unit, e)
              (
                swaps.masks unit s t out e,
                record {
                  kept = λ other m. swaps.keeps_masked unit other s t out e m;
                  same = swaps.same_view unit s t out e;
                },
              )
        | inr (x, t, e) ↦ rw (Post, mask_unit, e) tt
      ]

  -- The units that systemd lists.
  abbrev listed : State → List Text
  listed s = (active_swap_units os env s).0

  -- What `Apply` leaves: no swap in use, no entry of fstab and no listed unit that would turn it on.
  record IsDone (t : State) : Type 0 where
    free : Free os env files t
    masked : All (IsMasked t) (listed t)

  Free-same :
      (s t : State) → view os env t ≡ view os env s → Free os env files s → Free os env files t
  Free-same s t e h =
      let swaps_same = ap (λ (v : View). v.0) e in
      let fstab_same = ap (λ (v : View). v.1.0) e in
      (
        IsOff-kept os env files s t (λ c k. swaps_same ∙ k) h.0,
        ap fstab_has_active_swap_lines (
              fstab_content-content os env files t
              ∙ ap text_of fstab_same
              ∙ sym (fstab_content-content os env files s))
            ∙ h.1,
      )

  mask_active_units-IsDone :
      Triple (Free os env files) (mask_active_units os env) (λ _. IsDone) Anything
  unfolding mask_active_units mask_units
  mask_active_units-IsDone = record {
    run = λ s h.
        rw (mask_active_units, swaps.only_lists s)
          (Post-weaken (λ _ t. All (IsMasked t) (listed s) × Kept s t) (λ _. IsDone) Anything
            Anything (for_each (mask_unit os env) (listed s) s)
            (for_each-IsRight IsMasked (view os env) (mask_unit os env) mask_unit-PutsRight
              (listed s) s)
            (λ u t k. record {
              free = Free-same s t k.1.same h;
              masked = rw (ap (λ (v : View). v.1.1) k.1.same) k.0;
            })
            (λ t k. tt));
  }

  apply-IsDone : (s : State) → Post (λ _. IsDone) Anything (apply os env s)
  unfolding apply
  apply-IsDone s = elim (Fallible-cases (active_swap_devices os env s)) [
    | inr (x, e) ↦ rw (apply, e) tt
    | inl (active, e) ↦
        rw (apply, e)
          ((then_next {P = λ u. u ≡ s} {m = swap_off os env active}
              (record { run = λ u k. rw k (swap_off_lem os env files IsMasked swaps active s e) })
              (then_next (comment_fstab-Free os env files IsMasked swaps)
                mask_active_units-IsDone)).run
            s refl)
  ]

  -- What holds after a successful `Apply`.
  pub record IsDisabled (t : State) : Type 0 where
    pub unused : active_swap_devices os env t ≡ value []
    pub no_entry : IsSwapFree os env files t
    pub masked : All (IsMasked t) (active_swap_units os env t).0
    pub checked : (check os env t).error ≡ none
    pub drift :
        is_would_change (check os env t).result.status ≡ not (is_nil (active_swap_units os env t).0)

  drift-Free :
      (t : State)
      → Free os env files t
      → is_would_change (check os env t).result.status ≡ not (is_nil (listed t))
  unfolding check report_swap is_would_change
  drift-Free t h = elim (Bool-cases (is_nil (listed t))) [
    | inl e ↦ rw (check, h.0.off, h.1, e) (ground arith)
    | inr e ↦ rw (check, h.0.off, h.1, e) (ground arith)
  ]

  checked_of_Free : (t : State) → Free os env files t → (check os env t).error ≡ none
  unfolding check
  checked_of_Free t h = rw (check, h.0.off)

  -- After a successful `Apply` no swap is in use, no line of /etc/fstab is an active swap entry, and every
  -- swap unit that systemd then lists is masked; and `Check` asks for a change exactly where systemd
  -- lists a unit, as masking does not stop one. This is where `swapoff -a` that succeeds leaves no swap
  -- in use, the listing of units changes nothing, and `systemctl mask` that succeeds masks its unit,
  -- keeps the masks and the list of units, and does not touch /proc/swaps and /etc/fstab.
  pub apply-IsDisabled : (s t : State) → apply os env s ≡ done tt t → IsDisabled t
  apply-IsDisabled s t a =
      let h = rw a at (apply-IsDone s) in
      record {
        unused = h.free.0.off;
        no_entry = h.free.1;
        masked = h.masked;
        checked = checked_of_Free t h.free;
        drift = drift-Free t h.free;
      }
