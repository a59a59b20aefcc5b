-- ===== src/Update/Uf2.antt =====
-- tools/rpi-hub/bosun_hub/update_package.py, validate_firmware_uf2: which UF2 images may be written.
-- Bytes are numbers; a page is kept as the slice of its block. `pages` is the dict in insertion
-- order, newest last.
pub mod Safety
pub mod Accepts
use bosun_midi_captain.Base.{
  ℕ, zero, suc, ◌+◌, ◌-◌, ◌*◌, ◌/◌, ◌%◌, Bool, true, false, Option, none, some, List, [], ◌∷◌, ◌++◌,
  ltb, leb, ◌==◌, same_nat, ◌&&◌, ◌||◌, not, length, contains, take, drop, if◌then◌else◌,
}
use bosun_midi_captain.Base.Dict.{Dict, get, keys}

-- FLASH_BASE, FLASH_BYTES, STORAGE_BYTES, STORAGE_OFFSET, _UF2_LIMIT
abbrev pub flash_base : ℕ
flash_base = 0x10000000

abbrev pub flash_bytes : ℕ
flash_bytes = 8 * 1024 * 1024

abbrev pub storage_bytes : ℕ
storage_bytes = 4 * 1024 * 1024

abbrev pub storage_offset : ℕ
storage_offset = 4194304

abbrev pub uf2_limit : ℕ
uf2_limit = 8388608

-- UpdatePackageError, by the message of the check that failed.
pub data Uf2Error : Type 0 where
  bad_size bad_magic bad_target bad_block bad_region duplicate_address : Uf2Error
  not_contiguous no_vector_table bad_stack bad_reset : Uf2Error

pub data Result {ℓ} (A : Type ℓ) : Type ℓ where
  ok : A → Result A
  err : Uf2Error → Result A

infixl 5 ◌>>=◌
abbrev pub ◌>>=◌ {ℓ κ} : {A : Type ℓ} {B : Type κ} → Result A → (A → Result B) → Result B
ok a >>= f = f a
err e >>= f = err e

-- if not test: _fail(message)
unfoldable pub require {ℓ} : {A : Type ℓ} → Bool → Uf2Error → Result A → Result A
require true e rest = rest
require false e rest = err e

-- data[i], where the index is known to be in range.
unfoldable pub byte_at : List ℕ → ℕ → ℕ
byte_at [] i = 0
byte_at (b ∷ bs) zero = b
byte_at (b ∷ bs) (suc i) = byte_at bs i

-- struct.unpack_from("<I", data, offset)
unfoldable pub u32_at : List ℕ → ℕ → ℕ
u32_at bs i =
    byte_at bs i
    + 256 * byte_at bs (i + 1)
    + 65536 * byte_at bs (i + 2)
    + 16777216 * byte_at bs (i + 3)

-- The fields of a block's header.
pub record Block : Type 0 where
  pub magic0 : ℕ
  pub magic1 : ℕ
  pub flags : ℕ
  pub address : ℕ
  pub size : ℕ
  pub number : ℕ
  pub total : ℕ
  pub family : ℕ
  pub magic_end : ℕ
  pub payload : List ℕ

unfoldable pub block_of : List ℕ → Block
block_of bs = record {
  magic0 = u32_at bs 0;
  magic1 = u32_at bs 4;
  flags = u32_at bs 8;
  address = u32_at bs 12;
  size = u32_at bs 16;
  number = u32_at bs 20;
  total = u32_at bs 24;
  family = u32_at bs 28;
  magic_end = u32_at bs 508;
  payload = take 256 (drop 32 bs);
}

-- The checks on one block; the page goes in under its address.
unfoldable pub check_block : ℕ → ℕ → Block → Dict ℕ (List ℕ) → Result (Dict ℕ (List ℕ))
check_block count index b pages =
    require (b.magic0 == 0x0A324655 && b.magic1 == 0x9E5D5157 && b.magic_end == 0x0AB16F30)
      bad_magic
      (require (b.flags == 0x2000 && b.family == 0xE48BFF56) bad_target (
        require (b.size == 256 && b.address % 256 == 0 && b.number == index && b.total == count)
          bad_block
          (require (leb flash_base b.address && ltb b.address (flash_base + storage_offset))
            bad_region
            (require (not (contains b.address (keys pages))) duplicate_address
              (ok (pages ++ (b.address, b.payload) ∷ []))))))

-- for index in range(count): the blocks that are left, from `index` on.
unfoldable pub check_blocks : ℕ → ℕ → ℕ → List ℕ → Dict ℕ (List ℕ) → Result (Dict ℕ (List ℕ))
check_blocks count zero index bytes pages = ok pages
check_blocks count (suc left) index bytes pages =
    check_block count index (block_of (take 512 bytes)) pages
    >>= check_blocks count left (index + 1) (drop 512 bytes)

-- sorted(pages)
unfoldable pub insert_sorted : ℕ → List ℕ → List ℕ
insert_sorted a [] = a ∷ []
insert_sorted a (x ∷ xs) =
    let rest = insert_sorted a xs in if leb a x then a ∷ (x ∷ xs) else x ∷ rest

unfoldable pub sorted : List ℕ → List ℕ
sorted [] = []
sorted (x ∷ xs) = insert_sorted x (sorted xs)

-- list(range(start, start + count * 256, 256))
unfoldable pub page_range : ℕ → ℕ → List ℕ
page_range zero start = []
page_range (suc count) start = start ∷ page_range count (start + 256)

unfoldable pub equal_lists : List ℕ → List ℕ → Bool
equal_lists [] [] = true
equal_lists (x ∷ xs) (y ∷ ys) = x == y && equal_lists xs ys
equal_lists _ _ = false

unfoldable pub check_vectors : ℕ → ℕ → Dict ℕ (List ℕ) → Result (Dict ℕ (List ℕ))
check_vectors stack reset pages =
    require (stack % 8 == 0 && ltb 0x20000000 stack && leb stack 0x20042000) bad_stack (
      require
        (reset % 2 == 1
          && contains (reset - reset % 256) (keys pages)
          && leb (flash_base + 256) reset)
        bad_reset (ok pages))

-- The page at 256 bytes into the flash holds the initial stack pointer and the reset vector.
unfoldable pub check_boot : Option (List ℕ) → Dict ℕ (List ℕ) → Result (Dict ℕ (List ℕ))
check_boot none pages = err no_vector_table
check_boot (some page) pages = check_vectors (u32_at page 0) (u32_at page 4) pages

-- The checks on the whole image.
unfoldable pub check_image : ℕ → Dict ℕ (List ℕ) → Result (Dict ℕ (List ℕ))
check_image count pages =
    require (equal_lists (sorted (keys pages)) (page_range count flash_base)) not_contiguous
      (check_boot (get (flash_base + 256) pages) pages)

-- validate_firmware_uf2
unfoldable pub validate_firmware_uf2 : List ℕ → Result (Dict ℕ (List ℕ))
validate_firmware_uf2 bytes =
    require (not (length bytes == 0) && length bytes % 512 == 0 && leb (length bytes) uf2_limit)
      bad_size
      (check_blocks (length bytes / 512) (length bytes / 512) 0 bytes []
        >>= check_image (length bytes / 512))
