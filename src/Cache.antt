-- ===== src/Cache.antt =====
-- kernel/fs/ext2_cache.c: the block cache of the ext2 driver, with the disk below it. A slot's bytes
-- are a list; the disk is a function from block numbers, since a block's sectors start at its number
-- times the sectors of a block. The lock makes each call atomic.
use exec_aegis.Base.{
  ℕ, zero, suc, ◌+◌, ◌%◌, ◌^◌, Bool, true, false, ◌&&◌, not, Option, none, some, List, ltb, ◌==◌,
  if◌then◌else◌, u32,
}
pub mod Find
pub mod Evict
pub mod Coherent
pub mod Sync
pub mod Touch
pub mod Fill
pub mod Get
pub mod Write
pub mod Failed
mod Tests

abbrev pub cache_slots : ℕ
cache_slots = 16

-- The bytes of a block.
abbrev pub Block : Type 0
Block = List ℕ

-- `cache_slot_t`; age 0 is an empty slot.
pub record Slot : Type 0 where
  pub block_num : ℕ
  pub dirty : Bool
  pub age : ℕ
  pub bytes : Block

-- `s_cache`, `s_cache_age` and the disk.
pub record Cache : Type 0 where
  pub slots : ℕ → Slot
  pub age : ℕ
  pub disk : ℕ → Block

-- Does the device's write, or read, of a block work?
pub record Device : Type 0 where
  pub writes : ℕ → Bool
  pub reads : ℕ → Bool

unfoldable pub update {ℓ} : {A : Type ℓ} → (ℕ → A) → ℕ → A → ℕ → A
update f i v j = if j == i then v else f j

-- The loop of `cache_find` from slot `i`, with `left` slots to go.
unfoldable pub find_from : ℕ → ℕ → (ℕ → Slot) → ℕ → Option ℕ
find_from zero i slots block = none
find_from (suc left) i slots block =
    let later = find_from left (i + 1) slots block in
    if (slots i).block_num == block && not ((slots i).age == 0) then some i else later

unfoldable pub cache_find : (ℕ → Slot) → ℕ → Option ℕ
cache_find slots block = find_from cache_slots 0 slots block

-- Is the first slot to be evicted before the second one?
unfoldable pub evicted_before : Slot → Slot → Bool
evicted_before s best =
    if not s.dirty && best.dirty
    then true
    else if s.dirty && not best.dirty
    then false
    else ltb s.age best.age

unfoldable pub pick : ℕ → ℕ → ℕ → (ℕ → Slot) → ℕ
pick zero i best slots = best
pick (suc left) i best slots =
    pick left (i + 1) (if evicted_before (slots i) (slots best) then i else best) slots

-- A dirty slot is written, except of block 0, and is clean then even if the write failed.
unfoldable pub write_back : Device → ℕ → Cache → Cache
write_back dev i c =
    let s = c.slots i in
    let written = if dev.writes s.block_num then update c.disk s.block_num s.bytes else c.disk in
    if s.dirty && not (s.block_num == 0)
    then record {
      slots =
          update c.slots i
            (record { block_num = s.block_num; dirty = false; age = s.age; bytes = s.bytes });
      age = c.age;
      disk = written;
    }
    else c

-- The slot that is free to take, and the cache after its write back.
unfoldable pub cache_evict : Device → Cache → Cache × ℕ
cache_evict dev c = let best = pick 15 1 0 c.slots in (write_back dev best c, best)

unfoldable pub cache_mark_dirty : ℕ → Cache → Cache
cache_mark_dirty block c = elim (cache_find c.slots block) [
  | none ↦ c
  | some i ↦ record c {
    slots = update c.slots i (record {
      block_num = (c.slots i).block_num;
      dirty = true;
      age = (c.slots i).age;
      bytes = (c.slots i).bytes;
    });
  }
]

-- A hit: the slot gets the next age.
unfoldable pub touch : ℕ → Cache → Cache
touch i c =
    let s = c.slots i in
    let age = u32 (c.age + 1) in
    record {
      slots =
          update c.slots i
            (record { block_num = s.block_num; dirty = s.dirty; age = age; bytes = s.bytes });
      age = age;
      disk = c.disk;
    }

-- A miss: the slot evicted takes the block; a failed read leaves the bytes that were there.
unfoldable pub fill : Device → ℕ → ℕ → Cache → Cache × Option ℕ
fill dev block i c =
    let age = u32 (c.age + 1) in
    let bytes = if dev.reads block then c.disk block else (c.slots i).bytes in
    let slot : Slot = record { block_num = block; dirty = false; age = age; bytes = bytes } in
    (
      record { slots = update c.slots i slot; age = age; disk = c.disk },
      if dev.reads block then some i else none,
    )

-- The slot of a block, `none` for an error of the device.
unfoldable pub cache_get_slot : Device → ℕ → Cache → Cache × Option ℕ
cache_get_slot dev block c = elim (cache_find c.slots block) [
  | some i ↦ (touch i c, some i)
  | none ↦ fill dev block (cache_evict dev c).1 (cache_evict dev c).0
]

-- The callers' way to write a block: get its slot, change the bytes, mark it dirty.
unfoldable pub put_bytes : ℕ → Block → Cache → Cache
put_bytes i bytes c =
    let s = c.slots i in
    record c {
      slots =
          update c.slots i
            (record { block_num = s.block_num; dirty = s.dirty; age = s.age; bytes = bytes });
    }

unfoldable pub write_block : Device → ℕ → Block → Cache → Cache × Bool
write_block dev block bytes c =
    let r = cache_get_slot dev block c in
    elim r.1 [
      | none ↦ (r.0, false)
      | some i ↦ (cache_mark_dirty block (put_bytes i bytes r.0), true)
    ]

-- The loop of `ext2_sync`, for a mounted file system.
unfoldable pub sync_from : ℕ → ℕ → Device → Cache → Cache
sync_from zero i dev c = c
sync_from (suc left) i dev c = sync_from left (i + 1) dev (write_back dev i c)

unfoldable pub ext2_sync : Bool → Device → Cache → Cache
ext2_sync mounted dev c = if mounted then sync_from cache_slots 0 dev c else c
