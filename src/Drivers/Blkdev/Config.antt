-- ===== src/Drivers/Blkdev/Config.antt =====
-- The features and the configuration of the block device in kernel/src/drivers/virtio/blkdev.rs.
use rv.Base.{ℕ, ◌+◌, ◌^◌, bit_and, Bool, ◌==◌, if◌then◌else◌}

-- The flags of `DeviceFeatures` that the driver knows.
abbrev pub size_max_flag : ℕ
size_max_flag = 2 ^ 1

abbrev pub seg_max_flag : ℕ
seg_max_flag = 2 ^ 2

abbrev pub geometry_flag : ℕ
geometry_flag = 2 ^ 4

abbrev pub blk_size_flag : ℕ
blk_size_flag = 2 ^ 6

abbrev pub topology_flag : ℕ
topology_flag = 2 ^ 10

-- The features that the driver acknowledges, of those that the device offers.
unfoldable pub accepted : ℕ → ℕ
accepted offered =
    bit_and offered (size_max_flag + seg_max_flag + geometry_flag + blk_size_flag + topology_flag)

pub record Geometry : Type 0 where
  pub cylinders : ℕ
  pub heads : ℕ
  pub sectors : ℕ

pub record Topology : Type 0 where
  pub physical_block_exp : ℕ
  pub alignment_offset : ℕ
  pub min_io_size : ℕ
  pub opt_io_size : ℕ

pub record Config : Type 0 where
  pub capacity : ℕ
  pub size_max : ℕ
  pub seg_max : ℕ
  pub geometry : Geometry
  pub blk_size : ℕ
  pub topology : Topology

-- `contains`
abbrev pub contains : (features flag : ℕ) → Bool
contains features flag = bit_and features flag == flag

-- `read` is the field of the device at an offset, in a number of bytes; a field whose feature is missing is left as it
-- was.
unfoldable pub read_config : (read : (offset bytes : ℕ) → ℕ) → (features : ℕ) → Config → Config
read_config read features cfg = record {
  capacity = read 0 8;
  size_max = if contains features size_max_flag then read 8 4 else cfg.size_max;
  seg_max = if contains features seg_max_flag then read 12 4 else cfg.seg_max;
  geometry =
      if contains features geometry_flag
      then record { cylinders = read 16 2; heads = read 18 1; sectors = read 19 1 }
      else cfg.geometry;
  blk_size = if contains features blk_size_flag then read 20 4 else cfg.blk_size;
  topology =
      if contains features topology_flag
      then record {
        physical_block_exp = read 24 1;
        alignment_offset = read 25 1;
        min_io_size = read 26 2;
        opt_io_size = read 28 4;
      }
      else cfg.topology;
}
