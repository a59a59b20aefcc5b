-- ===== src/Tests/Uf2Tests.antt =====
-- The UF2 validator at an image of two pages.
use bosun_midi_captain.Base.{
  ℕ, zero, suc, ◌+◌, ◌*◌, ◌/◌, ◌%◌, ◌≤◌, ◌<◌, ◌≡◌, refl, some, List, [], ◌∷◌, ◌++◌, length,
  same_nat,
}
use bosun_midi_captain.Base.Dict.{Dict, get, keys}
use bosun_midi_captain.Update.Uf2.{
  ok, require, check_blocks, check_block, block_of, u32_at, byte_at, check_image, check_boot,
  check_vectors, insert_sorted, equal_lists, validate_firmware_uf2, flash_base, storage_offset,
  sorted, page_range,
}
use bosun_midi_captain.Update.Uf2.Safety.{pages_of, AllKeys, InFirmware}
use bosun_midi_captain.Update.Uf2.Accepts.{
  Boots, validate_pages, validate_contiguous, validate-Boots,
}

abbrev zeros : ℕ → List ℕ
zeros zero = []
zeros (suc n) = 0 ∷ zeros n

abbrev le32 : ℕ → List ℕ
le32 n = n % 256 ∷ (n / 256 % 256 ∷ (n / 65536 % 256 ∷ (n / 16777216 ∷ [])))

-- A page that starts with two words.
abbrev page_with : ℕ → ℕ → List ℕ
page_with first second = le32 first ++ (le32 second ++ zeros 248)

abbrev block : ℕ → ℕ → List ℕ → List ℕ
block total number page =
    le32 0x0A324655
    ++ (le32 0x9E5D5157
        ++ (le32 0x2000
            ++ (le32 (flash_base + 256 * number)
                ++ (le32 256
                    ++ (le32 number
                        ++ (le32 total
                            ++ (le32 0xE48BFF56 ++ (page ++ (zeros 220 ++ le32 0x0AB16F30)))))))))

-- A boot stage, and a page with the vectors.
abbrev image : List ℕ
image = block 2 0 (page_with 0 0) ++ block 2 1 (page_with 0x20042000 0x10000101)

abbrev pages : Dict ℕ (List ℕ)
pages = (flash_base, page_with 0 0) ∷ ((flash_base + 256, page_with 0x20042000 0x10000101) ∷ [])

image_ok : validate_firmware_uf2 image ≡ ok pages
unfolding validate_firmware_uf2 require check_blocks check_block block_of u32_at byte_at keys get
    check_image check_boot check_vectors sorted insert_sorted page_range equal_lists
image_ok = refl

validate_pages_example : (pages ≡ pages_of (length image / 512) image) × AllKeys InFirmware pages
validate_pages_example = validate_pages image pages image_ok

validate_contiguous_example :
    (0 < length image / 512)
    × (length image ≡ 512 * (length image / 512))
    × (sorted (keys pages) ≡ page_range (length image / 512) flash_base)
    × (length image / 512 * 256 ≤ storage_offset)
validate_contiguous_example = validate_contiguous image pages image_ok

validate-Boots_example :
    (page : List ℕ) × (get (flash_base + 256) pages ≡ some page) × Boots pages page
validate-Boots_example = validate-Boots image pages image_ok
