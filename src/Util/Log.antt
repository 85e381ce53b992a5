-- ===== src/Util/Log.antt =====
-- source/smrsim_util/smrsim_util.c, smrsim_err_iot: the commands `e`.
use smr_simulator.Base.{ℕ, if◌then◌else◌, ◌==◌, some, none}
use smr_simulator.Ioctl.{
  Cmd, get_last_rerror, get_last_werror, set_logenable, set_logdisable, writable,
}
use smr_simulator.Util.Run.{
  Driver, Tool, ioctl_call, ioctl_say, word_or, print, failed, value, succeeded, invalid_command,
  ◌>>=◌,
}

-- `if (!ioctl(fd, cmd, &num)) printf num`
abbrev pub show_number : Driver → Cmd → Tool (Unit {0})
show_number call cmd = do
  o ← ioctl_call call cmd
  elim o [ some w ↦ print (value (word_or 0 (some w))) | none ↦ print failed ]

unfoldable pub err_iot : Driver → ℕ → Tool (Unit {0})
err_iot call seq =
    if seq == 1
    then show_number call (get_last_rerror writable)
    else if seq == 2
    then show_number call (get_last_werror writable)
    else if seq == 3
    then ioctl_say call set_logenable succeeded
    else if seq == 4
    then ioctl_say call set_logdisable succeeded
    else print invalid_command
