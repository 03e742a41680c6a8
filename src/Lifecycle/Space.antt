-- ===== src/Lifecycle/Space.antt =====
-- The check of the free disk space.
use nomad_driver_steamcmd.Base.{ℕ, Text, ok, IsOk, ◌≡◌, ◌↔◌, ◌*◌, ◌%◌, ◌^◌, ◌≤◌, ◌<◌, arith}
use nomad_driver_steamcmd.Lifecycle.Host.{Host, free_bytes, min_free_bytes, enough_space}

-- If the blocks that are free make fewer than 2 ^ 64 bytes, the check succeeds exactly if they make
-- 512 MiB at least, and it changes nothing.
pub enough_space_iff :
    {S : Type 0} (host : Host S) (dir : Text) (s : S) (available block : ℕ)
    → host.statfs dir s ≡ ok (available, block)
    → available * block < 2 ^ 64
    → (IsOk (enough_space host dir s).1 ↔ (min_free_bytes ≤ available * block))
      × ((enough_space host dir s).0 ≡ s)
unfolding enough_space free_bytes
enough_space_iff host dir s available block told fits =
    let whole : available * block % 2 ^ 64 ≡ available * block = omega (arith, fits) in
    (
      (λ h. ground (arith, told, whole, h), λ h. ground (arith, told, whole, h)),
      ground (arith, told),
    )
