-- ===== src/Resource/IoScheduler/Active.antt =====
-- The parser of the kernel's list of schedulers finds the active one.
use node_configurator.Prelude.{true, false, List, [], ◌∷◌, ◌++◌, ◌≡◌, refl, ◌∙◌, All}
use node_configurator.Text.{Text, trim_space, trim, fields}
use node_configurator.Resource.IoScheduler.{
  Offer, is_bracketed, scheduler_field, scheduler_fields, parse_scheduler,
}

-- The kernel's list of schedulers shows this one as the active one: the last word in brackets.
pub record IsShown (scheduler raw : Text) : Type 0 where
  pub before : List Text
  pub word : Text
  pub after : List Text
  pub splits : fields (trim_space raw) ≡ before ++ word ∷ after
  pub bracketed : is_bracketed word ≡ true
  pub names : trim (b'[' ∷ b']' ∷ []) word ≡ scheduler
  pub alone : All (λ f. is_bracketed f ≡ false) after

scheduler_fields_alone :
    (fs : List Text) (o : Offer)
    → All (λ f. is_bracketed f ≡ false) fs
    → (scheduler_fields fs o).current ≡ o.current
unfolding scheduler_fields scheduler_field
scheduler_fields_alone [] o h = refl
scheduler_fields_alone (f ∷ fs) o h =
    scheduler_fields_alone fs (scheduler_field f o) h.1 ∙ rw (scheduler_field, h.0) refl

scheduler_fields_word :
    (before after : List Text) (word : Text) (o : Offer)
    → is_bracketed word ≡ true
    → All (λ f. is_bracketed f ≡ false) after
    → (scheduler_fields (before ++ word ∷ after) o).current ≡ trim (b'[' ∷ b']' ∷ []) word
unfolding scheduler_fields scheduler_field
scheduler_fields_word [] after word o b h =
    scheduler_fields_alone after (scheduler_field word o) h ∙ rw (scheduler_field, b) refl
scheduler_fields_word (f ∷ before) after word o b h =
    scheduler_fields_word before after word (scheduler_field f o) b h

pub parse_scheduler-IsShown :
    (scheduler raw : Text) → IsShown scheduler raw → (parse_scheduler raw).current ≡ scheduler
unfolding parse_scheduler
parse_scheduler-IsShown scheduler raw h =
    rw h.splits (scheduler_fields_word h.before h.after h.word _ h.bracketed h.alone ∙ h.names)
