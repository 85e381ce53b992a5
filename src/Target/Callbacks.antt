-- ===== src/Target/Callbacks.antt =====
-- dm-smrsim.c, smrsim_status, smrsim_merge and smrsim_iterate_devices: what the device mapper asks
-- of a target.
use smr_simulator.Base.{ℕ, if◌then◌else◌, leb, Option, some, none}
use smr_simulator.Map.{Target, map_sector}
use smr_simulator.Target.{Module}

-- `status_type_t`
pub data StatusType : Type 0 where
  status_info status_table : StatusType

-- The start that is printed behind the name of the disk, or the empty text.
unfoldable pub status : StatusType → Module → Option ℕ
status status_info m = none
status status_table m = some m.start

-- `q->merge_bvec_fn`, if there is one, for the sector of the request on the disk.
unfoldable pub merge : Option (ℕ → ℕ) → Target → ℕ → ℕ → ℕ
merge none target bi_sector max_size = max_size
merge (some merge_fn) target bi_sector max_size =
    let limit = merge_fn (map_sector target bi_sector) in
    if leb max_size limit then max_size else limit

-- `fn` gets the start and the length of the target on its disk.
unfoldable pub iterate_devices : Module → ℕ → (ℕ → ℕ → ℕ) → ℕ
iterate_devices m len fn = fn m.start len
