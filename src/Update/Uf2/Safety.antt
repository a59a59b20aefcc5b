-- ===== src/Update/Uf2/Safety.antt =====
-- What an accepted UF2 image guarantees: where it writes, what it writes, and where it boots.
use bosun_midi_captain.Base.{
  take, drop, ℕ, zero, suc, ◌+◌, ◌%◌, ◌≤◌, ◌≡◌, refl, sym, ap, ◌∙◌, Bool, true, false, List, [],
  ◌∷◌, ◌++◌, append_assoc, append-nil, arith, ltb, leb, ◌==◌, same_nat, ◌&&◌, not, contains,
}
use bosun_midi_captain.Base.Dict.{Dict, keys}
use bosun_midi_captain.Update.Uf2.{
  Uf2Error, Result, ok, err, ◌>>=◌, require, Block, block_of, check_block, check_blocks, flash_base,
  storage_offset,
}

pub require_ok {ℓ} :
    {A : Type ℓ} (test : Bool) (e : Uf2Error) (rest : Result A) {x : A}
    → require test e rest ≡ ok x
    → (test ≡ true) × (rest ≡ ok x)
unfolding require
require_ok true e rest h = (refl, h)
require_ok false e rest h = cc

pub bind_ok {ℓ} :
    {A : Type ℓ} (m : Result A) (f : A → Result A) {x : A}
    → (m >>= f) ≡ ok x
    → (a : A) × (m ≡ ok a) × (f a ≡ ok x)
bind_ok (ok a) f h = (a, refl, h)
bind_ok (err e) f h = cc

-- A page that lies in the firmware's half of the flash, on a page boundary.
abbrev pub InFirmware : ℕ → Type 0
InFirmware a = (flash_base ≤ a) × (a + 256 ≤ flash_base + storage_offset) × (a % 256 ≡ 0)

-- What one accepted block adds.
record Accepted (b : Block) (pages result : Dict ℕ (List ℕ)) : Type 0 where
  region : InFirmware b.address
  fresh : contains b.address (keys pages) ≡ false
  added : result ≡ pages ++ (b.address, b.payload) ∷ []

check_block_ok :
    (count index : ℕ) (b : Block) (pages : Dict ℕ (List ℕ)) (result : Dict ℕ (List ℕ))
    → check_block count index b pages ≡ ok result
    → Accepted b pages result
unfolding check_block
check_block_ok count index b pages result h =
    let (_, h₁) = require_ok _ _ _ h in
    let (_, h₂) = require_ok _ _ _ h₁ in
    let (shape, h₃) = require_ok _ _ _ h₂ in
    let (region, h₄) = require_ok _ _ _ h₃ in
    let (fresh, h₅) = require_ok _ _ _ h₄ in
    record {
      region = in_region b.address b.size b.number b.total index count shape region;
      fresh = is_fresh (contains b.address (keys pages)) fresh;
      added = sym (value h₅);
    }
  where
    is_fresh : (c : Bool) → not c ≡ true → c ≡ false
    is_fresh c e = ground arith

    value : {x y : Dict ℕ (List ℕ)} → ok x ≡ ok y → x ≡ y
    value e = cc

    in_region :
        (a size number total index count : ℕ)
        → (size == 256 && a % 256 == 0 && number == index && total == count) ≡ true
        → (leb flash_base a && ltb a (flash_base + storage_offset)) ≡ true
        → InFirmware a
    in_region a size number total index count shape region =
        (ground arith, ground arith, ground arith)

-- The pages of the blocks from the front of the data, in order.
abbrev pub pages_of : ℕ → List ℕ → Dict ℕ (List ℕ)
pages_of zero bytes = []
pages_of (suc left) bytes =
    ((block_of (take 512 bytes)).address, (block_of (take 512 bytes)).payload)
    ∷ pages_of left (drop 512 bytes)

pub check_blocks_pages :
    (count left index : ℕ) (bytes : List ℕ) (pages result : Dict ℕ (List ℕ))
    → check_blocks count left index bytes pages ≡ ok result
    → result ≡ pages ++ pages_of left bytes
unfolding check_blocks
check_blocks_pages count zero index bytes pages result h = value h ∙ sym (append-nil pages)
  where
    value : {x y : Dict ℕ (List ℕ)} → ok x ≡ ok y → y ≡ x
    value e = cc
check_blocks_pages count (suc left) index bytes pages result h =
    let b = block_of (take 512 bytes) in
    let (more, e, rest) =
      bind_ok (check_block count index b pages)
        (check_blocks count left (index + 1) (drop 512 bytes)) h in
    check_blocks_pages count left (index + 1) (drop 512 bytes) more result rest
    ∙ ap (λ p. p ++ pages_of left (drop 512 bytes))
        (check_block_ok count index b pages more e).added
    ∙ append_assoc pages ((b.address, b.payload) ∷ []) (pages_of left (drop 512 bytes))

abbrev pub AllKeys : (ℕ → Type 0) → Dict ℕ (List ℕ) → Type 0
AllKeys P [] = Unit {0}
AllKeys P ((a, page) ∷ d) = P a × AllKeys P d

pub check_blocks_region :
    (count left index : ℕ) (bytes : List ℕ) (pages result : Dict ℕ (List ℕ))
    → check_blocks count left index bytes pages ≡ ok result
    → AllKeys InFirmware (pages_of left bytes)
unfolding check_blocks
check_blocks_region count zero index bytes pages result h = tt
check_blocks_region count (suc left) index bytes pages result h =
    let b = block_of (take 512 bytes) in
    let (more, e, rest) =
      bind_ok (check_block count index b pages)
        (check_blocks count left (index + 1) (drop 512 bytes)) h in
    (
      (check_block_ok count index b pages more e).region,
      check_blocks_region count left (index + 1) (drop 512 bytes) more result rest,
    )
