-- ===== src/Update/Uf2/Accepts.antt =====
-- The guarantees of validate_firmware_uf2 on an image that it accepts.
use bosun_midi_captain.Base.{
  ℕ, ◌+◌, ◌-◌, ◌*◌, ◌/◌, ◌%◌, ◌≤◌, ◌<◌, ◌≡◌, refl, sym, subst, Bool, true, Option, none, some, List,
  [], ◌∷◌, arith, ltb, leb, ◌==◌, same_nat, ◌&&◌, not, length, contains,
}
use bosun_midi_captain.Base.Dict.{Dict, get, keys}
use bosun_midi_captain.Update.Uf2.{
  ok, u32_at, check_blocks, check_image, check_boot, check_vectors, validate_firmware_uf2,
  flash_base, storage_offset, uf2_limit, sorted, page_range, equal_lists,
}
use bosun_midi_captain.Update.Uf2.Safety.{
  require_ok, bind_ok, pages_of, AllKeys, InFirmware, check_blocks_pages, check_blocks_region,
}

ok-injective : {x y : Dict ℕ (List ℕ)} → ok x ≡ ok y → x ≡ y
ok-injective e = cc

pub equal_lists-eq : (xs ys : List ℕ) → equal_lists xs ys ≡ true → xs ≡ ys
unfolding equal_lists
equal_lists-eq [] [] h = refl
equal_lists-eq [] (y ∷ ys) h = cc
equal_lists-eq (x ∷ xs) [] h = cc
equal_lists-eq (x ∷ xs) (y ∷ ys) h = ground (arith, equal_lists-eq xs ys)

-- Where the processor starts: the stack pointer is aligned and in RAM, and the reset vector is a
-- Thumb address inside a page of the image, past its boot stage.
abbrev pub Boots : Dict ℕ (List ℕ) → List ℕ → Type 0
Boots pages page =
    (u32_at page 0 % 8 ≡ 0)
    × (0x20000000 < u32_at page 0)
    × (u32_at page 0 ≤ 0x20042000)
    × (u32_at page 4 % 2 ≡ 1)
    × (contains (u32_at page 4 - u32_at page 4 % 256) (keys pages) ≡ true)
    × (flash_base + 256 ≤ u32_at page 4)

boot_ok :
    (found : Option (List ℕ)) (pages result : Dict ℕ (List ℕ))
    → check_boot found pages ≡ ok result
    → (page : List ℕ) × (found ≡ some page) × Boots pages page × (pages ≡ result)
unfolding check_boot check_vectors
boot_ok none pages result h = cc
boot_ok (some page) pages result h =
    let (stack_ok, h₁) = require_ok _ _ _ h in
    let (reset_ok, h₂) = require_ok _ _ _ h₁ in
    (page, refl, booting (u32_at page 0) (u32_at page 4) _ stack_ok reset_ok, ok-injective h₂)
  where
    booting :
        (stack reset : ℕ) (c : Bool)
        → (stack % 8 == 0 && ltb 0x20000000 stack && leb stack 0x20042000) ≡ true
        → (reset % 2 == 1 && c && leb (flash_base + 256) reset) ≡ true
        → (stack % 8 ≡ 0)
          × (0x20000000 < stack)
          × (stack ≤ 0x20042000)
          × (reset % 2 ≡ 1)
          × (c ≡ true)
          × (flash_base + 256 ≤ reset)
    booting stack reset c s r =
        (ground arith, ground arith, ground arith, ground arith, ground arith, ground arith)

-- What all the checks of an accepted image gave.
record Accepts (bytes : List ℕ) (pages : Dict ℕ (List ℕ)) : Type 0 where
  sized : (0 < length bytes) × (length bytes % 512 ≡ 0) × (length bytes ≤ uf2_limit)
  blocks : check_blocks (length bytes / 512) (length bytes / 512) 0 bytes [] ≡ ok pages
  ordered : sorted (keys pages) ≡ page_range (length bytes / 512) flash_base
  boots : (page : List ℕ) × (get (flash_base + 256) pages ≡ some page) × Boots pages page

accepts :
    (bytes : List ℕ) (pages : Dict ℕ (List ℕ))
    → validate_firmware_uf2 bytes ≡ ok pages
    → Accepts bytes pages
unfolding validate_firmware_uf2 check_image
accepts bytes pages h =
    let n = length bytes / 512 in
    let (size_ok, h₁) = require_ok _ _ _ h in
    let (found, blocks_ok, h₂) = bind_ok (check_blocks n n 0 bytes []) (check_image n) h₁ in
    let (same, h₃) = require_ok _ _ _ h₂ in
    let (page, at_boot, boots, e) = boot_ok (get (flash_base + 256) found) found pages h₃ in
    record {
      sized = sizes (length bytes) size_ok;
      blocks = rw (← e) blocks_ok;
      ordered = rw (← e) (equal_lists-eq _ _ same);
      boots = rw (← e) (page, at_boot, boots);
    }
  where
    sizes :
        (n : ℕ)
        → (not (n == 0) && n % 512 == 0 && leb n uf2_limit) ≡ true
        → (0 < n) × (n % 512 ≡ 0) × (n ≤ uf2_limit)
    sizes n e = (ground arith, ground arith, ground arith)

-- The pages of an accepted image are those of its blocks, in order and with nothing dropped, and
-- each of them lies on a page boundary in the firmware's half of the flash: none reaches the
-- settings region behind it.
pub validate_pages :
    (bytes : List ℕ) (pages : Dict ℕ (List ℕ))
    → validate_firmware_uf2 bytes ≡ ok pages
    → (pages ≡ pages_of (length bytes / 512) bytes) × AllKeys InFirmware pages
validate_pages bytes pages h =
    let n = length bytes / 512 in
    let blocks = (accepts bytes pages h).blocks in
    let e = check_blocks_pages n n 0 bytes [] pages blocks in
    (e, subst (AllKeys InFirmware) (sym e) (check_blocks_region n n 0 bytes [] pages blocks))

-- An accepted image is not empty, is made of whole blocks, and its addresses in order are exactly
-- the consecutive pages from the flash base; the last of them ends before the settings region.
pub validate_contiguous :
    (bytes : List ℕ) (pages : Dict ℕ (List ℕ))
    → validate_firmware_uf2 bytes ≡ ok pages
    → (0 < length bytes / 512)
      × (length bytes ≡ 512 * (length bytes / 512))
      × (sorted (keys pages) ≡ page_range (length bytes / 512) flash_base)
      × (length bytes / 512 * 256 ≤ storage_offset)
validate_contiguous bytes pages h =
    let a = accepts bytes pages h in
    let (some_bytes, whole, limit) = a.sized in (omega arith, omega arith, a.ordered, omega arith)

-- An accepted image has the page that holds the vectors. Its initial stack pointer is 8-aligned
-- and in RAM; its reset vector is odd, lies past the boot stage, and falls into a page of the image.
pub validate-Boots :
    (bytes : List ℕ) (pages : Dict ℕ (List ℕ))
    → validate_firmware_uf2 bytes ≡ ok pages
    → (page : List ℕ) × (get (flash_base + 256) pages ≡ some page) × Boots pages page
validate-Boots bytes pages h = (accepts bytes pages h).boots
