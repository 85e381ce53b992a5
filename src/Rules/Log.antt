-- ===== src/Rules/Log.antt =====
-- dm-smrsim.c, smrsim_log_error, smrsim_get_last_rd_error, smrsim_get_last_wd_error and
-- smrsim_set_log_enable.
use smr_simulator.Base.{ℕ, if◌then◌else◌, ◌==◌}
use smr_simulator.Types.{
  Code, err_read_border, err_read_pointer, err_write_ro, err_write_full, err_write_border,
  err_write_pointer, err_write_align, code_u32,
}
use smr_simulator.State.{Sim}

-- The switch of `smrsim_log_error`: which variable keeps the code, if any.
unfoldable pub log_code : Sim → Code → Sim
log_code s err_read_border = record s { dbg_rerr = code_u32 err_read_border }
log_code s err_read_pointer = record s { dbg_rerr = code_u32 err_read_pointer }
log_code s err_write_ro = record s { dbg_werr = code_u32 err_write_ro }
log_code s err_write_pointer = record s { dbg_werr = code_u32 err_write_pointer }
log_code s err_write_align = record s { dbg_werr = code_u32 err_write_align }
log_code s err_write_border = record s { dbg_werr = code_u32 err_write_border }
log_code s err_write_full = record s { dbg_werr = code_u32 err_write_full }
log_code s _ = s

-- The callers pass a request that is not null.
unfoldable pub log_error : Sim → Code → Sim
log_error s uerr = if s.dbg_log_enabled == 0 then s else log_code s uerr

-- Both return 0; the value goes through `last_error`.
unfoldable pub get_last_rd_error : Sim → ℕ × Sim
get_last_rd_error s = (s.dbg_rerr, record s { dbg_rerr = 0 })

unfoldable pub get_last_wd_error : Sim → ℕ × Sim
get_last_wd_error s = (s.dbg_werr, record s { dbg_werr = 0 })

unfoldable pub set_log_enable : Sim → ℕ → Sim
set_log_enable s zero_is_disable = record s { dbg_log_enabled = zero_is_disable }
