-- ===== src/Resource/RingParams.antt =====
-- The ring buffers of internal/resource/nictuning.go: what `ethtool -g` prints, the drift and the
-- arguments for `ethtool -G`.
use node_configurator.Prelude.{
  ℕ, Bool, ◌&&◌, ◌||◌, ◌==◌, List, [], ◌∷◌, ◌++◌, if◌then◌else◌, Option, none, some, ℤ, pos, ltb_ℤ,
}
use node_configurator.Text.{Text, codes, is_nil, has_prefix, split, trim_space, join}
use node_configurator.Text.Number.{show_int, parse_int, is_digit}
use node_configurator.Resource.IoScheduler.{after_prefix}

-- `ringParams`
pub record RingParams : Type 0 where
  pub max_rx : ℤ
  pub max_tx : ℤ
  pub cur_rx : ℤ
  pub cur_tx : ℤ

pub data Section : Type 0 where
  no_section maximums settings : Section

pub data Direction : Type 0 where
  rx tx : Direction

-- The class `\s`.
unfoldable pub is_blank : ℕ → Bool
is_blank c = c == 0x20 || c == 0x09 || c == 0x0a || c == 0x0c || c == 0x0d

unfoldable pub skip_blanks : Text → Text
skip_blanks [] = []
skip_blanks (c ∷ s) = let rest = skip_blanks s in if is_blank c then rest else c ∷ s

unfoldable pub take_digits : Text → Text
take_digits [] = []
take_digits (c ∷ s) = let rest = take_digits s in if is_digit c then c ∷ rest else []

-- `\s+(\d+|n/a)` and the conversion of its group. No number is what `n/a` and no match give.
unfoldable pub ring_value : Text → Option ℤ
ring_value [] = none
ring_value (c ∷ s) = if is_blank c then parse_int (take_digits (skip_blanks s)) else none

-- A line that sets a value.
unfoldable pub ring_line : Text → Option (Direction × ℤ)
ring_line trimmed = elim (after_prefix (codes "RX:") trimmed) [
  | some rest ↦ elim (ring_value rest) [ some v ↦ some (rx, v) | none ↦ none ]
  | none ↦ elim (after_prefix (codes "TX:") trimmed) [
    | some rest ↦ elim (ring_value rest) [ some v ↦ some (tx, v) | none ↦ none ]
    | none ↦ none
  ]
]

unfoldable pub set_ring : Section → Direction → ℤ → RingParams → RingParams
set_ring no_section _ v rp = rp
set_ring maximums rx v rp = record rp { max_rx = v }
set_ring maximums tx v rp = record rp { max_tx = v }
set_ring settings rx v rp = record rp { cur_rx = v }
set_ring settings tx v rp = record rp { cur_tx = v }

-- The loop of `parseEthtoolRingParams`.
unfoldable pub ring_lines : List Text → Section → RingParams → RingParams
ring_lines [] part rp = rp
ring_lines (line ∷ lines) part rp =
    let trimmed = trim_space line in
    let at_maximums = ring_lines lines maximums rp in
    let at_settings = ring_lines lines settings rp in
    let same = ring_lines lines part rp in
    if has_prefix trimmed (codes "Pre-set maximums")
    then at_maximums
    else if has_prefix trimmed (codes "Current hardware settings")
    then at_settings
    else elim (ring_line trimmed) [
      | some (d, v) ↦ ring_lines lines part (set_ring part d v rp)
      | none ↦ same
    ]

-- `parseEthtoolRingParams`
unfoldable pub parse_ethtool_ring_params : Text → RingParams
parse_ethtool_ring_params output =
    ring_lines (split b'\n' output) no_section
      (record { max_rx = pos 0; max_tx = pos 0; cur_rx = pos 0; cur_tx = pos 0 })

-- `max > 0 && cur < max`
unfoldable pub can_grow : ℤ → ℤ → Bool
can_grow cur max = ltb_ℤ (pos 0) max && ltb_ℤ cur max

-- The fragment that an `if` around an `append` adds.
abbrev pub when {ℓ} : {A : Type ℓ} → Bool → List A → List A
when b l = if b then l else []

-- The text of `ringBufferDrift`.
unfoldable pub ring_drift : RingParams → Text
ring_drift rp =
    let drift =
      when (can_grow rp.cur_rx rp.max_rx)
        ((codes "rx " ++ (show_int rp.cur_rx ++ (codes " -> " ++ show_int rp.max_rx))) ∷ [])
      ++ when (can_grow rp.cur_tx rp.max_tx)
          ((codes "tx " ++ (show_int rp.cur_tx ++ (codes " -> " ++ show_int rp.max_tx))) ∷ []) in
    if is_nil drift then [] else codes "ring buffers: " ++ join (codes ", ") drift

-- The arguments of `applyRingBufferMax`.
unfoldable pub ring_args : RingParams → List Text
ring_args rp =
    when (can_grow rp.cur_rx rp.max_rx) (codes "rx" ∷ show_int rp.max_rx ∷ [])
    ++ when (can_grow rp.cur_tx rp.max_tx) (codes "tx" ∷ show_int rp.max_tx ∷ [])
