-- ===== src/Lib.antt =====
-- The SMR simulator: a device-mapper target that makes a disk behave like a host-managed shingled
-- drive. Requests are checked against the zones' write pointers and conditions; a background task
-- writes the state to the end of the device; a user configures it by ioctl calls.
--
-- The program and the modules. Except for Util, the functions are those of
-- source/smrsim_kmod/dm-smrsim.c, without their prefix `smrsim_`; the structures are those of
-- source/smrsim_kmod/smrsim_types.h, the codes those of source/smrsim_kmod/smrsim_zerror.h.
--   Types    structures, conditions and types of zones, error codes, the request (`struct bio`)
--   State    the module's globals and the object `zone_state` as one record `Sim`, the accesses to
--            its arrays, the geometry of the zones (num_sectors_zone, zone_idx_lba), and the
--            invariant `State.Geometry.IsValid`, which includes the queue of the background task and
--            the length in the header of the object
--   Init     stats_size to init_zone_state
--   Idle     dev_idle_init and dev_idle_update
--   Rules    log_error, write_rule_check and read_rule_check, block by block; Aims says what the
--            theorems ask of a request, Frame what no check changes; HostWrite,
--            HostRead and HostConventional compare the checks with the rules of a host-managed
--            drive, WriteTotal is about whether the write check returns
--   Map      map, from its entry to the verdict; Managed has the runs of a host-managed device,
--            Fill a run that fills a zone, Again a write after a reset
--   Pstore   the queue of changed zones, flush_persistence, save_persistence, one round of
--            persistence_task; Bytes has the save and load_persistence on the bytes of the object,
--            Codec and Object the layout of those bytes, Page one page by a bio, Load the globals
--            that are loaded and persistence_thread
--   Config   the calls that configure the device (Device), its zones (Zones), the statistics and
--            the reset of a zone (Stats), and the research options (Research)
--   Query    query_zones
--   Ioctl    ioctl: a command carries what copy_from_user and copy_to_user do; Calls says when a
--            command is safe, Notes what a command tells the background task
--   Target   ctr and dtr, with Restart from a save to the next target; Callbacks has status, merge and
--            iterate_devices
--   System   requests, commands and rounds of the background task in any order, as one step each; User
--            and Served say what each does to the drive that a user sees
--   Drive    what a user sees of the device through the commands of ioctl: the drive that a state
--            shows (View) and what each command does to it (Obey), with no object, room, task or
--            width of a number; the calls are those of source/smrsim_kmod/smrsim_kapi.h
--   Trace    the entries that a request writes to the kernel's trace: Entry has the events of
--            source/smrsim_kmod/smrsim_trace.h, Request the tracepoints of map and of the rule checks,
--            Told and Host compare the entries with the verdict and with the rules
--   Util     the command line tool source/smrsim_util/smrsim_util.c, whose functions keep their names
--            without `smrsim_`: Log (err_iot), Zones (zone_iot), Stats (stats_iot), Config, Count and
--            Add (config_iot), Research (zone_rt), Main; Run is what a command does to its
--            surroundings; ResetZone, AddLoop and Safety follow commands down to `ioctl`
--   Base, Exit, Faults    lists and words, early returns, and accesses that may fault
--   Examples a device of four zones with the tests and the instances of the theorems
--
-- Conventions. Numbers are natural numbers; a value that C keeps in a word is cut to it where it is
-- computed (u8, u32, u64, sub32, sub64). An access through a null or freed pointer, past the end of
-- an array or of the object, and a second `kfree` or `vfree`, is a fault: `none`. A function of C returns its code
-- and the new state. Loops run by the rounds left, which the caller computes as C does
-- (`SMR_NUMZONES`, `eidx - zone_idx`); the loop of index_power_of_2 has 64 rounds, enough for a
-- __u64, which is halved in each. The mutexes make each operation one step,
-- except that smrsim_ioctl sets the flag of the task under a mutex of its own. The
-- kernel's part is arguments: jiffies, HZ, PAGE_SIZE, crc32, is_power_of_2, dm_target_offset, the
-- results of allocations and of copies from and to the user. The bits of the persistence flag are
-- Booleans; a page that is written is given by its index. A target that is set up has the kernel's
-- answers in one record, `Pstore.Load.Answers`.
--
-- The tool's driver is an argument as well, a function from the device and a command to the outcome of
-- the ioctl call; memory and typed numbers are lists that malloc and scanf take from, and a printed
-- line is given by what it says. The loop that adds zones has the rounds as an argument, and two are
-- enough on a device in a valid state.
--
-- Not modelled: registration with the device mapper, printk, the tracepoints of calls and of the life
-- cycle (source/smrsim_kmod/smrsim_trace.h) and the text of the others, the listings of zones and of statistics in the kernel log
-- (list_zone_status, report_stats), the sleep of the background task, and the wording of what the
-- tool prints.
pub mod Base
pub mod Types
pub mod State
pub mod Exit
pub mod Faults
pub mod Rules
pub mod Idle
pub mod Pstore
pub mod Map
pub mod Init
pub mod Config
pub mod Query
pub mod Ioctl
pub mod Target
pub mod System
pub mod Drive
pub mod Trace
pub mod Util
pub mod Examples
