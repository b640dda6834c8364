-- ===== src/Profile/Scaling/Bounds.antt =====
-- The range of each value that `applyScaling` computes.
use node_configurator.Prelude.{
  ℕ, ◌/◌, ◌≤◌, ◌<◌, ltb, if◌then◌else◌, ◌≡◌, refl, arith, ℤ, pos, negsuc, quot, max_ℤ,
}
use node_configurator.Text.{text_eq, contains}
use node_configurator.Text.Dict.{keys, NodupKeys}
use node_configurator.Float.{Float64}
use node_configurator.Facts.{Facts}
use node_configurator.Profile.Scaling.{clamp_int, thresh1, thresh2, thresh3, scaled_sysctls}

-- A natural number between two bounds, as an integer.
pub record Between (lo hi : ℕ) (v : ℤ) : Type 0 where
  pub number : ℕ
  pub is : v ≡ pos number
  pub at_least : lo ≤ number
  pub at_most : number ≤ hi

pub clamp_int-Between :
    (v : ℤ) (lo hi : ℕ) → lo ≤ hi → Between lo hi (clamp_int v (pos lo) (pos hi))
unfolding clamp_int
clamp_int-Between (negsuc n) lo hi h = record {
  number = lo;
  is = refl;
  at_least = omega arith;
  at_most = h;
}
clamp_int-Between (pos n) lo hi h = if-Between n lo hi h
  where
    if-Between :
        (n lo hi : ℕ)
        → lo ≤ hi
        → Between lo hi (if ltb n lo then pos lo else if ltb hi n then pos hi else pos n)
    if-Between n lo hi h = record {
      number = if ltb n lo then lo else if ltb hi n then hi else n;
      is = ground arith;
      at_least = ground arith;
      at_most = ground arith;
    }

-- The three thresholds of the neighbour table.
pub record Thresholds (a b c : ℤ) : Type 0 where
  pub low : ℕ
  pub middle : ℕ
  pub high : ℕ
  pub low_is : a ≡ pos low
  pub middle_is : b ≡ pos middle
  pub high_is : c ≡ pos high
  pub low_lt : low < middle
  pub middle_lt : middle < high

module _ (out_of_range : Float64 → ℤ) where
  pub thresh3-Between : (f : Facts) → Between 1024 131072 (thresh3 out_of_range f)
  unfolding thresh3
  thresh3-Between f = clamp_int-Between _ 1024 131072 (omega arith)

  pub thresh2-Between : (f : Facts) → Between 512 65536 (thresh2 out_of_range f)
  unfolding thresh2 quot max_ℤ
  thresh2-Between f =
      let c = thresh3-Between f in
      record {
        number = if ltb (c.number / 2) 512 then 512 else c.number / 2;
        is = rw (c.is, quot) (ground arith);
        at_least = ground arith;
        at_most = ground (arith, c.at_most);
      }

  pub thresh1-Between : (f : Facts) → Between 128 16384 (thresh1 out_of_range f)
  unfolding thresh1 quot max_ℤ
  thresh1-Between f =
      let c = thresh3-Between f in
      record {
        number = if ltb (c.number / 8) 128 then 128 else c.number / 8;
        is = rw (c.is, quot) (ground arith);
        at_least = ground arith;
        at_most = ground (arith, c.at_most);
      }

  pub thresh-Thresholds :
      (f : Facts)
      → Thresholds (thresh1 out_of_range f) (thresh2 out_of_range f) (thresh3 out_of_range f)
  unfolding thresh1 thresh2 quot max_ℤ
  thresh-Thresholds f =
      let c = thresh3-Between f in
      record {
        low = if ltb (c.number / 8) 128 then 128 else c.number / 8;
        middle = if ltb (c.number / 2) 512 then 512 else c.number / 2;
        high = c.number;
        low_is = rw (c.is, quot) (ground arith);
        middle_is = rw (c.is, quot) (ground arith);
        high_is = c.is;
        low_lt = ground (arith, c.at_least);
        middle_lt = ground (arith, c.at_least);
      }

  pub scaled_sysctls-NodupKeys : (f : Facts) → NodupKeys (scaled_sysctls out_of_range f)
  unfolding scaled_sysctls contains keys text_eq
  scaled_sysctls-NodupKeys f = (
    refl,
    (
      refl,
      (refl, (refl, (refl, (refl, (refl, (refl, (refl, (refl, (refl, (refl, (refl, tt))))))))))),
    ),
  )
