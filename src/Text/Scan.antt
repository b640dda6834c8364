-- ===== src/Text/Scan.antt =====
-- `bufio.Scanner` with its default split function, over the whole content of a file.
use node_configurator.Prelude.{
  ℕ, ◌+◌, Bool, true, false, ◌&&◌, List, [], ◌∷◌, ◌==◌, ltb, leb, ◌≡◌, refl, if◌then◌else◌,
}
use node_configurator.Text.{Text, codes, is_nil, split}

-- The bytes of a code point in UTF-8.
utf8_length : ℕ → ℕ
utf8_length c = if ltb c 0x80 then 1 else if ltb c 0x800 then 2 else if ltb c 0x10000 then 3 else 4

-- `len(s)`
byte_length : Text → ℕ
unfolding utf8_length
byte_length [] = 0
byte_length (c ∷ s) = utf8_length c + byte_length s

-- `bufio.MaxScanTokenSize`: a line that fills the buffer ends the scan with `ErrTooLong`.
abbrev max_scan_token_size : ℕ
max_scan_token_size = 65536

unfoldable pub is_too_long : Text → Bool
unfolding byte_length
is_too_long s = leb max_scan_token_size (byte_length s)

-- A line without its trailing carriage return.
unfoldable pub drop_cr : Text → Text
drop_cr [] = []
drop_cr (c ∷ s) = let rest = drop_cr s in if c == 0x0d && is_nil s then [] else c ∷ rest

-- The lines that `Scan` yields, and whether `Err` then reports a line that is too long.
pub record Scanned : Type 0 where
  pub lines : List Text
  pub too_long : Bool

-- The pieces between newlines. The last one is a line only if it is not empty.
unfoldable pub scan_pieces : List Text → Scanned
scan_pieces [] = record { lines = []; too_long = false }
scan_pieces (w ∷ []) =
    if is_too_long w
    then record { lines = []; too_long = true }
    else record { lines = if is_nil w then [] else drop_cr w ∷ []; too_long = false }
scan_pieces (w ∷ v ∷ ws) =
    let rest = scan_pieces (v ∷ ws) in
    if is_too_long w
    then record { lines = []; too_long = true }
    else record { lines = drop_cr w ∷ rest.lines; too_long = rest.too_long }

unfoldable pub scan_lines : Text → Scanned
unfolding scan_pieces
scan_lines s = scan_pieces (split b'\n' s)

scan_lines_example :
    scan_lines (codes "a b\r\n\nc")
    ≡ record { lines = codes "a b" ∷ [] ∷ codes "c" ∷ []; too_long = false }
unfolding scan_lines is_too_long drop_cr split
scan_lines_example = refl
