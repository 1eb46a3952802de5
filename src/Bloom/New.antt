-- ===== src/Bloom/New.antt =====
-- A new filter has the bits that it says it has.
use pebble_db.Prelude.{ℕ, zero, suc, ◌+◌, ◌*◌, ◌/◌, ◌<◌, ◌≤◌, ◌≡◌, refl, ap, length, All, arith}
use pebble_db.Bloom.{Filter, new, zeros, clamp}
use pebble_db.Bloom.Member.{IsByte, IsWhole}

length-zeros : (n : ℕ) → length (zeros n) ≡ n
unfolding zeros
length-zeros zero = refl
length-zeros (suc n) = ap suc (length-zeros n)

zeros-bytes : (n : ℕ) → All IsByte (zeros n)
unfolding zeros
zeros-bytes zero = tt
zeros-bytes (suc n) = (omega arith, zeros-bytes n)

clamp_bounds : (k : ℕ) → (0 < clamp k) × (clamp k ≤ 30)
unfolding clamp
clamp_bounds k = ground arith

pub record IsFresh (m : ℕ) (f : Filter) : Type 0 where
  pub whole : IsWhole f
  pub some_bits : 0 < f.m
  pub not_wider : f.m < m + 8
  pub hashes : 0 < f.k
  pub few_hashes : f.k ≤ 30

pub new-IsFresh : (m k : ℕ) → 0 < m → IsFresh m (new m k)
unfolding new
new-IsFresh m k pos =
    let n = (m + 7) / 8 * 8 / 8 in
    record {
      whole = record { bytes = zeros-bytes n; size = omega (arith, length-zeros n) };
      some_bits = omega arith;
      not_wider = omega arith;
      hashes = (clamp_bounds k).0;
      few_hashes = (clamp_bounds k).1;
    }
