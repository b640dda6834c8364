-- ===== src/Tests/Nics.antt =====
-- A NIC with one receive and one transmit queue, whose rings `ethtool` can enlarge.
use node_configurator.Prelude.{
  Bool, true, false, [], ◌∷◌, ◌++◌, if◌then◌else◌, none, some, ◌≡◌, refl, sym, ap, ◌∙◌, ◌⊎◌, inl,
  inr, pos, Option,
}
use mathlib.Core.Option.{some-injective}
use node_configurator.Text.{Text, codes}
use node_configurator.System.{
  FilePath, Error, Fallible, value, failure, Outcome, done, fail, state_of, Os,
}
use node_configurator.Sysutil.Paths.{new}
use node_configurator.Sysutil.Files.{content, content_of}
use node_configurator.Resource.CpuMask.Padding.{widened}
use node_configurator.Text.{split, has_prefix, trim_space, is_space, text_eq}
use node_configurator.Text.Number.{parse_int, is_digit, read_nat, show_int, itoa}
use node_configurator.Resource.IoScheduler.{after_prefix}
use node_configurator.Resource.RingParams.{
  parse_ethtool_ring_params, ring_lines, ring_line, ring_value, is_blank, take_digits, skip_blanks,
  set_ring, can_grow,
}
use node_configurator.Resource.Nic.{NicResource, query_rings, queue_dirs, nic_resource}
use node_configurator.Resource.Nic.Rings.{HasRings, Sets}
use node_configurator.Resource.Nic.Masks.{HasMasks}
use node_configurator.Resource.Nic.Settles.{nic-Converges}
use node_configurator.Engine.Run.Converge.{Converges}
use node_configurator.Tests.Memory.{path_eq, path_eq_iff}
use node_configurator.Tests.Toy.{broken}

-- Whether the rings are enlarged, and the masks.
record NicState : Type 0 where
  large : Bool
  rx_mask : Text
  tx_mask : Text

abbrev queue : Text → FilePath
queue name = codes "sys" ∷ codes "class" ∷ codes "net" ∷ codes "eth0" ∷ codes "queues" ∷ name ∷ []

abbrev rx_file : FilePath
rx_file = queue (codes "rx-0") ++ codes "rps_cpus" ∷ []

abbrev tx_file : FilePath
tx_file = queue (codes "tx-0") ++ codes "xps_cpus" ∷ []

abbrev small_rings : Text
small_rings =
    codes
      "Pre-set maximums:\nRX:\t\t4096\nTX:\t\t1024\nCurrent hardware settings:\nRX:\t\t512\nTX:\t\t1024\n"

abbrev large_rings : Text
large_rings =
    codes
      "Pre-set maximums:\nRX:\t\t4096\nTX:\t\t1024\nCurrent hardware settings:\nRX:\t\t4096\nTX:\t\t1024\n"

abbrev printed : Bool → Text
printed true = large_rings
printed false = small_rings

abbrev put : Bool → Bool → Text → NicState → Outcome NicState (Unit {0})
put true _ c s = done tt (record s { rx_mask = c })
put false true c s = done tt (record s { tx_mask = c })
put false false c s = fail broken s

abbrev get : Bool → Bool → NicState → Fallible Text
get true _ s = value (s.rx_mask ++ codes "\n")
get false true s = value (s.tx_mask ++ codes "\n")
get false false s = failure broken

abbrev ethtool : Bool → Bool → NicState → Outcome NicState Text
ethtool true _ s = done (printed s.large) s
ethtool false true s = done [] (record s { large = true })
ethtool false false s = fail broken s

abbrev one_nic : Os
one_nic = record {
  State = NicState;
  read_file = λ s p. get (path_eq p rx_file) (path_eq p tx_file) s;
  stat = λ s p. none;
  read_dir = λ s p. failure broken;
  glob = λ s pattern. value (
      if path_eq pattern (queue (codes "rx-*"))
      then queue (codes "rx-0") ∷ []
      else queue (codes "tx-0") ∷ []);
  write_file = λ p c s. put (path_eq p rx_file) (path_eq p tx_file) c s;
  mkdir_all = λ p s. fail broken s;
  create_temp = λ d pattern s. fail broken s;
  write_temp = λ p c s. fail broken s;
  chmod_temp = λ p m s. fail broken s;
  close_temp = λ p s. fail broken s;
  rename = λ a b s. fail broken s;
  remove = λ p s. fail broken s;
  run = λ command args s.
      ethtool (path_eq args (codes "-g" ∷ codes "eth0" ∷ []))
        (path_eq args (codes "-G" ∷ codes "eth0" ∷ codes "rx" ∷ codes "4096" ∷ [])) s;
}

abbrev eth0 : NicResource
eth0 = record {
  env = new;
  interface_name = codes "eth0";
  num_cpus = pos 36;
  ring_buffer_max = true;
  rps = true;
  xps = true;
}

small_parsed :
    parse_ethtool_ring_params small_rings
    ≡ record { max_rx = pos 4096; max_tx = pos 1024; cur_rx = pos 512; cur_tx = pos 1024 }
unfolding parse_ethtool_ring_params ring_lines split has_prefix trim_space is_space ring_line
    after_prefix ring_value is_blank parse_int take_digits skip_blanks is_digit read_nat set_ring
small_parsed = refl

large_parsed :
    parse_ethtool_ring_params large_rings
    ≡ record { max_rx = pos 4096; max_tx = pos 1024; cur_rx = pos 4096; cur_tx = pos 1024 }
unfolding parse_ethtool_ring_params ring_lines split has_prefix trim_space is_space ring_line
    after_prefix ring_value is_blank parse_int take_digits skip_blanks is_digit read_nat set_ring
large_parsed = refl

queried : (s : NicState) → query_rings one_nic eth0 s ≡ (some (printed s.large), s)
unfolding query_rings path_eq text_eq
queried s = refl

Sets-printed : (large : Bool) (s t : NicState) (x : Text) → Sets one_nic eth0 s t (printed large) x
unfolding path_eq text_eq can_grow show_int itoa query_rings
Sets-printed true s t x h = absurd (cc (rw large_parsed at h))
Sets-printed false s t x h =
    let w = rw small_parsed at h in
    (
      large_rings,
      ap (λ (o : Outcome NicState Text). some (printed (state_of o).large)) (sym w),
      rw (small_parsed, large_parsed) refl,
    )

one_nic-HasRings : HasRings one_nic eth0
one_nic-HasRings = record {
  only_query = λ s. ap (λ (o : Option Text × NicState). o.1) (queried s);
  sets = λ s t out x q.
      rw
        (some-injective out (printed s.large)
          (sym q ∙ ap (λ (o : Option Text × NicState). o.0) (queried s)))
        (Sets-printed s.large s t x);
}

at_file :
    (a b : Bool) (c : Text) (s t : NicState)
    → put a b c s ≡ done tt t
    → get a b t ≡ value (c ++ codes "\n")
at_file true b c s t h = ap (λ (o : Outcome NicState (Unit {0})). get true b (state_of o)) (sym h)
at_file false true c s t h =
    ap (λ (o : Outcome NicState (Unit {0})). get false true (state_of o)) (sym h)
at_file false false c s t h = absurd (cc h)

same_rings : (a b : Bool) (c : Text) (s t : NicState) → put a b c s ≡ done tt t → t.large ≡ s.large
same_rings true b c s t h = sym (ap (λ (o : Outcome NicState (Unit {0})). (state_of o).large) h)
same_rings false true c s t h = sym (ap (λ (o : Outcome NicState (Unit {0})). (state_of o).large) h)
same_rings false false c s t h = absurd (cc h)

-- A file that is not the one written reads the same.
others_at :
    (a b c d : Bool) (mask : Text) (s t : NicState)
    → put a b mask s ≡ done tt t
    → ((a ≡ true) × (c ≡ true))
      ⊎ (((b ≡ true) × (d ≡ true)) ⊎ (content_of (get c d t) ≡ content_of (get c d s)))
others_at true b true d mask s t h = inl (refl, refl)
others_at true b false true mask s t h = inr (
    inr
      (ap (λ (o : Outcome NicState (Unit {0})). content_of (get false true (state_of o))) (sym h)))
others_at true b false false mask s t h = inr (inr refl)
others_at false true true d mask s t h =
    inr
      (inr (ap (λ (o : Outcome NicState (Unit {0})). content_of (get true d (state_of o))) (sym h)))
others_at false true false true mask s t h = inr (inl (refl, refl))
others_at false true false false mask s t h = inr (inr refl)
others_at false false c d mask s t h = absurd (cc h)

other_files :
    (p q : FilePath) (mask : Text) (s t : NicState)
    → one_nic.write_file p mask s ≡ done tt t
    → (q ≡ p) ⊎ (content one_nic t q ≡ content one_nic s q)
other_files p q mask s t h =
    elim (others_at (path_eq p rx_file) (path_eq p tx_file) (path_eq q rx_file) (path_eq q tx_file)
      mask s t h) [
        | inl e ↦ inl ((path_eq_iff q rx_file).0 e.1 ∙ sym ((path_eq_iff p rx_file).0 e.0))
        | inr (inl e) ↦ inl ((path_eq_iff q tx_file).0 e.1 ∙ sym ((path_eq_iff p tx_file).0 e.0))
        | inr (inr e) ↦ inr e
      ]

never_missing :
    (a b : Bool) (c : Text) (e : Error) (s t : NicState)
    → put a b c s ≡ fail e t
    → e.not_exist ≡ false
never_missing true b c e s t h = absurd (cc h)
never_missing false true c e s t h = absurd (cc h)
never_missing false false c e s t h =
    let same : broken ≡ e = cc h in ap (λ (x : Error). x.not_exist) (sym same)

one_nic-HasMasks : HasMasks one_nic eth0
unfolding widened query_rings queue_dirs path_eq text_eq
one_nic-HasMasks = record {
  shows = λ p s t h. (0, at_file (path_eq p rx_file) (path_eq p tx_file) _ s t h);
  others = λ p q s t h. other_files p q _ s t h;
  same_view = λ p s t h.
      ap (λ l. (some (printed l), λ direction. queue_dirs one_nic eth0 direction s))
        (same_rings (path_eq p rx_file) (path_eq p tx_file) _ s t h);
  missing = λ p e s t h n.
      absurd (cc (sym (never_missing (path_eq p rx_file) (path_eq p tx_file) _ e s t h) ∙ n));
}

nic-Converges_example : Converges (nic_resource one_nic eth0)
nic-Converges_example = nic-Converges one_nic eth0 one_nic-HasRings one_nic-HasMasks
