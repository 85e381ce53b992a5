-- ===== src/Util/Config.antt =====
-- source/smrsim_util/smrsim_util.c, smrsim_report_devconf and smrsim_config_iot: the commands `l`.
use smr_simulator.Base.{
  ℕ, ◌+◌, ◌*◌, ◌%◌, ◌^◌, not, ◌&&◌, ◌||◌, if◌then◌else◌, leb, ◌==◌, u32, [], Option, some, none,
}
use smr_simulator.Types.Cond
use smr_simulator.Types.Kind
use smr_simulator.Types.{ZoneStatus, DevConfig}
use smr_simulator.Config.Zones.{zero_status}
use smr_simulator.Ioctl.{
  Cmd, Reply, nothing, word, config, stats, zones, given, writable, get_numzones,
  get_sizzonedefault, get_devconfig, reset_defaultconfig, reset_zoneconfig, reset_devconfig,
  clear_zoneconfig, set_devrconfig, set_devwconfig, set_devrconfig_delay, set_devwconfig_delay,
  modify_zoneconfig,
}
use smr_simulator.Util.Atoi.{Text, atoi}
use smr_simulator.Util.Run.{
  invalid_command, failed, out_of_range, wrong_parameter, succeeded, destroys_zones, asks_type,
  asks_condition, all_conventional, config_line, Driver, Tool, ◌>>=◌, ◌>>◌, pure, break, print,
  scanf, ioctl_call, ioctl_say, word_or, number_or_break, argument,
}
use smr_simulator.Util.Count.{query_seq_zones}
use smr_simulator.Util.Add.{add_loop, first_vars}

-- `memset(&dev_conf, 0, ...)`
abbrev pub zero_config : DevConfig
zero_config = record {
  out_of_policy_read_flag = 0;
  out_of_policy_write_flag = 0;
  r_time_to_rmw_zone = 0;
  w_time_to_rmw_zone = 0;
}

unfoldable pub report_devconf : DevConfig → Tool (Unit {0})
report_devconf c = print (config_line c)

-- The structure after the call: it was all 0.
abbrev pub config_of : Reply → DevConfig
config_of (config c) = c
config_of nothing = zero_config
config_of (word n) = zero_config
config_of (stats t) = zero_config
config_of (zones a) = zero_config

abbrev pub shown_config : Option Reply → Tool (Unit {0})
shown_config none = print failed
shown_config (some w) = do print succeeded; report_devconf (config_of w)

-- `l 4`
unfoldable pub show_config : Driver → Tool (Unit {0})
unfolding report_devconf
show_config call = do o ← ioctl_call call (get_devconfig writable); shown_config o

-- `l 5` and `l 6`, by the command for a flag.
unfoldable pub set_policy : Driver → (ℕ → Cmd) → Option Text → Tool (Unit {0})
set_policy call cmd arg = do
  text ← argument arg []
  let num32 = atoi text
  if not (num32 == 0) && not (num32 == 1)
      then (do print wrong_parameter; break)
      else ioctl_say call (cmd num32) succeeded

-- The seconds of the argument as the __u16 milliseconds of the structure.
unfoldable pub delay_ms : ℕ → ℕ
delay_ms n = u32 (n * 1000) % 2 ^ 16

-- `l 10` and `l 11`, by the command for a delay.
unfoldable pub set_delay : Driver → (ℕ → Cmd) → Option Text → Tool (Unit {0})
unfolding delay_ms
set_delay call cmd arg = do
  text ← argument arg []
  ioctl_say call (cmd (delay_ms (atoi text))) succeeded

-- The zone for `l 9`: of the number typed for the condition, an int, the structure keeps 16 bits.
unfoldable pub changed_zone : ℕ → ℕ → ℕ → ℕ → ZoneStatus
changed_zone index size32 option cond =
    let conventional = option == 1 in
    record zero_status {
      z_start = index;
      z_length = size32;
      z_type = if conventional then Kind.conventional else Kind.sequential;
      z_conds = if conventional then 0 else cond % 2 ^ 16;
    }

-- The condition that is typed for a sequential zone. 2 and 3 are the open conditions.
abbrev pub not_open : ℕ → Tool ℕ
not_open cond =
    if cond == 2 || cond == 3 then (do print wrong_parameter; break; pure 0) else pure cond

abbrev pub asked_condition : ℕ → ℕ → Tool ℕ
asked_condition option garbage =
    if option == 1
    then pure Cond.no_wp
    else (do print asks_condition; cond ← scanf garbage; not_open cond)

-- The sequential zones with the one that is asked for.
abbrev pub option_count : ℕ → ℕ → ℕ
option_count option s_cnt = if option == 2 then u32 (s_cnt + 1) else s_cnt

-- `l 9` from the answer to the first question on.
unfoldable pub modify_answered : Driver → ℕ → ℕ → ℕ → ℕ → ℕ → Tool (Unit {0})
unfolding changed_zone
modify_answered call garbage num32 s_cnt size32 option =
    if not (option == 1) && not (option == 2) then (do print wrong_parameter; break) else (do
      cond ← asked_condition option garbage
      if option_count option s_cnt == 0
          then (do print all_conventional; break)
          else ioctl_say call (modify_zoneconfig (given (changed_zone num32 size32 option cond)))
              succeeded)

-- `l 9`. `garbage` is what the variable `cond` holds before it is read. There is a zone where the
-- zones are counted, since the index is below their number.
unfoldable pub modify_index : Driver → ℕ → Option Text → Tool (Unit {0})
unfolding query_seq_zones modify_answered
modify_index call garbage arg = do
  text ← argument arg []
  let num32 = atoi text
  n_zone ← number_or_break call (get_numzones writable)
  if leb n_zone num32 then (do print out_of_range; break) else (do
    s_cnt ← query_seq_zones call n_zone
    o ← ioctl_call call (get_sizzonedefault writable)
    elim o [ none ↦ print failed | some w ↦ pure tt ]
    print asks_type
    option ← scanf 0
    modify_answered call garbage num32 s_cnt (word_or 0 o) option)

-- The commands that set one thing of the device's configuration.
unfoldable pub set_config : Driver → ℕ → Option Text → Tool (Unit {0})
unfolding set_policy set_delay
set_config call seq arg =
    if seq == 5
    then set_policy call
        (λ n. set_devrconfig (given (record zero_config { out_of_policy_read_flag = n }))) arg
    else if seq == 6
    then set_policy call
        (λ n. set_devwconfig (given (record zero_config { out_of_policy_write_flag = n }))) arg
    else if seq == 10
    then set_delay call
        (λ n. set_devrconfig_delay (given (record zero_config { r_time_to_rmw_zone = n }))) arg
    else if seq == 11
    then set_delay call
        (λ n. set_devwconfig_delay (given (record zero_config { w_time_to_rmw_zone = n }))) arg
    else print invalid_command

-- The switch. `rounds` bounds the loop of `l 8`.
unfoldable pub config_seq : Driver → ℕ → ℕ → ℕ → Option Text → Tool (Unit {0})
unfolding show_config modify_index set_config add_loop
config_seq call rounds garbage seq arg =
    if seq == 1
    then ioctl_say call reset_defaultconfig succeeded
    else if seq == 2
    then ioctl_say call reset_zoneconfig succeeded
    else if seq == 3
    then ioctl_say call reset_devconfig succeeded
    else if seq == 4
    then show_config call
    else if seq == 7
    then (do print destroys_zones; ioctl_say call clear_zoneconfig succeeded)
    else if seq == 8
    then add_loop call rounds first_vars
    else if seq == 9
    then modify_index call garbage arg
    else set_config call seq arg

unfoldable pub config_iot : Driver → ℕ → ℕ → ℕ → Option Text → Tool (Unit {0})
unfolding config_seq
config_iot call rounds garbage seq arg = do
  o ← ioctl_call call (get_numzones writable)
  elim o [ none ↦ (do print failed; break) | some w ↦ pure tt ]
  config_seq call rounds garbage seq arg
