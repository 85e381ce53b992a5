-- ===== src/Util/Research.antt =====
-- source/smrsim_util/smrsim_util.c, smrsim_zone_rt: the commands `h`. The driver reads a __u32 from
-- the address of `num8`, a __u8, and cuts it to its low byte again: the three bytes beside `num8`
-- are left out here.
use smr_simulator.Base.{ℕ, ◌+◌, if◌then◌else◌, ◌==◌, u8, u64, shl, [], Option}
use smr_simulator.Ioctl.{Cmd, given, bdwp_reset, fdwp_adjst, border_cross}
use smr_simulator.Util.Atoi.{Text, atoi, atol}
use smr_simulator.Util.Run.{
  invalid_command, value, succeeded, Driver, Tool, ◌>>=◌, print, ioctl_say, argument,
}

-- `h 1` and `h 2`
unfoldable pub set_rt_flag : Driver → (ℕ → Cmd) → Option Text → Tool (Unit {0})
set_rt_flag call cmd arg = do
  text ← argument arg []
  ioctl_say call (cmd (u8 (atoi text))) (value (u8 (atoi text)))

-- `(n << 8) | 0x04` on 64 bits: the low byte of `n << 8` is 0.
abbrev pub border_option : ℕ → ℕ
border_option n = u64 (shl n 8) + 0x04

-- `h 4`
unfoldable pub border_of_zone : Driver → Option Text → Tool (Unit {0})
border_of_zone call arg = do
  text ← argument arg []
  ioctl_say call (border_cross (given (border_option (atol text)))) succeeded

unfoldable pub zone_rt : Driver → ℕ → Option Text → Tool (Unit {0})
zone_rt call seq arg =
    if seq == 1
    then set_rt_flag call (λ n. bdwp_reset (given n)) arg
    else if seq == 2
    then set_rt_flag call (λ n. fdwp_adjst (given n)) arg
    else if seq == 3
    then ioctl_say call (border_cross (given 0x02)) succeeded
    else if seq == 4
    then border_of_zone call arg
    else if seq == 5
    then ioctl_say call (border_cross (given 0)) succeeded
    else print invalid_command
