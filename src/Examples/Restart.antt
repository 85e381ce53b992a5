-- ===== src/Examples/Restart.antt =====
-- The device of four zones is saved, its target ended and set up again, with pages of 16 bytes and
-- a checksum that is always 7.
use smr_simulator.Base.{ℕ, ◌≡◌, ◌<◌, arith, refl, true, false, List, [], ◌∷◌, replicate, some, none}
use smr_simulator.Types.{success}
use smr_simulator.State.{Sim}
use smr_simulator.Pstore.Fields.{StatsFit, ZoneFits}
use smr_simulator.Init.{zero_stats}
use smr_simulator.Pstore.Bytes.{Pages}
use smr_simulator.Pstore.Page.{io_done}
use smr_simulator.Pstore.Load.{Answers, thread, save_object}
use smr_simulator.Target.{Module, Table, ctr_refuses, ctr, dtr}
use smr_simulator.Target.Restart.{Saved, Kept, restart_lem}
use smr_simulator.Examples.Device.{device, device-IsValid, zone, half_written}

abbrev running : Module
running = record {
  single = true;
  sim = device;
  pstore_thread = thread;
  start = 2048;
  disk = λ k. [];
}

abbrev line : Table
line = record {
  ti = true;
  argc = 2;
  sector = some 2048;
  context = true;
  lookup = success;
  len = 128;
}

abbrev answers : Answers
answers = record {
  load_page = true;
  load_object = true;
  init_object = false;
  save_page = true;
  stale = replicate 16 9;
  reads = λ idx. io_done;
  writes = λ idx. io_done;
  torn = λ idx. [];
  jiffies = 0;
  hz = 100;
}

abbrev sum : List ℕ → ℕ
sum xs = 7

zero_fits : StatsFit zero_stats
zero_fits = record {
  beyond_fits = omega arith;
  read_span_fits = omega arith;
  not_on_fits = omega arith;
  write_span_fits = omega arith;
  unaligned_fits = omega arith;
}

zone_fits :
    (i kind cond wp : ℕ) → i < 4 → kind < 4 → cond < 16 → wp < 33 → ZoneFits (zone i kind cond wp)
zone_fits i kind cond wp hi hk hc hw = record {
  start_fits = omega arith;
  z_length_fits = omega arith;
  wp_fits = omega arith;
  checkpoint_fits = omega arith;
  conds_fits = omega arith;
  type_fits = omega arith;
  flag_fits = omega arith;
}

device-Saved : Saved device
device-Saved = record {
  object_fits = record {
    header_fits = record {
      magic_fits = omega arith;
      length_fits = omega arith;
      version_fits = omega arith;
      crc_fits = omega arith;
    };
    config_fits = record {
      read_fits = omega arith;
      write_fits = omega arith;
      r_time_fits = omega arith;
      w_time_fits = omega arith;
    };
    idle_fits = record { max_fits = omega arith; min_fits = omega arith };
    stats_fit = (zero_fits, (zero_fits, (zero_fits, (zero_fits, tt))));
    zones_fit = (
      zone_fits 0 1 0 0 (omega arith) (omega arith) (omega arith) (omega arith),
      (
        zone_fits 1 2 4 8 (omega arith) (omega arith) (omega arith) (omega arith),
        (
          zone_fits 2 2 1 0 (omega arith) (omega arith) (omega arith) (omega arith),
          (zone_fits 3 1 0 0 (omega arith) (omega arith) (omega arith) (omega arith), tt),
        ),
      ),
    );
    stats_counted = refl;
    zones_counted = refl;
    num_fits = omega arith;
  };
  has_magic = refl;
  has_length = refl;
  first = zone 0 1 0 0;
  others = half_written ∷ zone 2 2 1 0 ∷ zone 3 1 0 0 ∷ [];
  has_first = refl;
  first_length = refl;
}

line_passes : ctr_refuses (record running { single = false }) line ≡ none
unfolding ctr_refuses
line_passes = ground arith

restart_example :
    (s₁ : Sim) × (d₁ : Pages) × (m₁ : Module) × (m₂ : Module) × (save_object 16 sum answers device
        (λ k. [])
      ≡ some (s₁, d₁))
    × (dtr (record running { sim = s₁; disk = d₁ }) ≡ some m₁)
    × (ctr 16 sum answers thread line m₁ ≡ some (success, m₂))
    × Kept device m₂.sim
restart_example =
    restart_lem 16 sum (λ xs. omega arith) (omega arith) running line answers device-IsValid
      device-Saved refl line_passes refl refl refl refl (λ idx. refl) (λ idx. refl)
