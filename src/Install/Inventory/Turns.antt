-- ===== src/Install/Inventory/Turns.antt =====
-- What one turn of the loop over the pages has established.
use bosun_midi_captain.Base.{
  ℕ, ◌+◌, ◌≤◌, ◌<◌, ◌≡◌, refl, sym, String, Bool, true, false, Option, none, some, List, [], ◌∷◌,
  ◌++◌, ltb, leb, length, ◌==◌, ◌&&◌, ◌||◌, not, same_nat, if◌then◌else◌, arith, length-append,
}
use bosun_midi_captain.Base.Int.{pos, negsuc}
use bosun_midi_captain.Json.{Value, Fields, int, null, get_or_null, has_field}
use bosun_midi_captain.Install.Snapshot.{
  Builtins, inventory_changed, incomplete_inventory, inventory_identity, same_value,
}
use bosun_midi_captain.Install.Inventory.{
  patches_in, Turn, refuse, whole, last, more, total_of, is_page, end_page, check_page, read_items,
  read_page, is_empty,
}

no_page : false ≡ true → ⊥
no_page h = ground (arith, h)

nonempty : {A : Type 0} (xs : List A) (b c : Bool) → (is_empty xs || b || c) ≡ false → 1 ≤ length xs
nonempty [] b c h = absurd (no_page (sym h))
nonempty (x ∷ xs) b c h = omega arith

second : (a b c : Bool) → (a || b || c) ≡ false → b ≡ false
second a b c h = ground (arith, h)

bounded : (total count : ℕ) → leb total count ≡ false → total ≤ 625 → count < 625
bounded total count e h = ground (arith, e, h)

module _ ⦃py : Builtins⦄ where
  -- A page of one revision and total, at its offset.
  abbrev pub Belongs : Value → Value → ℕ → Fields → Type 0
  Belongs revision total offset page =
      (same_value (get_or_null "revision" page) revision ≡ true)
      × (same_value (get_or_null "total" page) total ≡ true)
      × (same_value (get_or_null "offset" page) (int (pos offset)) ≡ true)

  -- The patches of a page.
  abbrev items_or_none : Option (List Value) → List Value
  items_or_none none = []
  items_or_none (some items) = items

  abbrev pub items_in : Fields → List Value
  items_in page = items_or_none (patches_in (get_or_null "patches" page))

  unfoldable pub all_items : List Fields → List Value
  all_items [] = []
  all_items (page ∷ pages) = items_in page ++ all_items pages

  -- Pages of one revision and total, each beginning where the one before ends.
  unfoldable pub Chained : Value → Value → ℕ → List Fields → Type 0
  Chained revision total offset [] = Unit
  Chained revision total offset (page ∷ pages) =
      Belongs revision total offset page
      × Chained revision total (offset + length (items_in page)) pages

  is_page-Belongs :
      (revision total : Value) (offset count : ℕ) (page : Fields)
      → is_page revision total offset count page ≡ true
      → Belongs revision total offset page
        × (offset + count ≤ total_of total)
        × (total_of total ≤ 625)
  unfolding is_page total_of
  is_page-Belongs (int revision) (int (pos total)) offset count page h = ground (arith, h)
  is_page-Belongs revision total offset count page h = absurd (no_page h)

  -- What a turn has established of its page, after the first page or at it.
  unfoldable pub TurnOf : Value → Value → List Value → List Value → Fields → Turn → Type 0
  TurnOf revision total items patches page (refuse e) = Unit
  TurnOf revision total items patches page whole = ⊥
  TurnOf revision total items patches page (last found) =
      Belongs revision total (length patches) page
      × (found ≡ patches ++ items)
      × (length found ≡ total_of total)
      × (total_of total ≤ 625)
  TurnOf revision total items patches page (more found r t) =
      Belongs revision total (length patches) page
      × (found ≡ patches ++ items)
      × ((r ≡ revision) × (t ≡ total))
      × (length patches < length found)
      × (length found < 625)

  check_page-TurnOf :
      (revision total : Value) (items patches : List Value) (page : Fields)
      → TurnOf revision total items patches page (check_page revision total items patches page)
  unfolding check_page end_page TurnOf
  check_page-TurnOf revision total items patches page =
      go (is_page revision total (length patches) (length items) page) refl
    where
      next : Value
      next = get_or_null "next_offset" page

      found : List Value
      found = patches ++ items

      ends :
          (b : Bool)
          → is_page revision total (length patches) (length items) page ≡ true
          → (a : Bool) → (same_value next (int (negsuc 0)) && (length found == total_of total)) ≡ a
          → (is_empty items
              || leb (total_of total) (length found)
              || not (same_value next (int (pos (length found)))))
            ≡ b
          → TurnOf revision total items patches page (
              if a
              then last found
              else if b
              then refuse incomplete_inventory
              else more found revision total)
      ends b h true e f =
          let p = is_page-Belongs revision total (length patches) (length items) page h in
          (p.0, refl, ground (arith, e), p.2)
      ends true h false e f = tt
      ends false h false e f =
          let p = is_page-Belongs revision total (length patches) (length items) page h in
          let n = nonempty items _ _ f in
          (
            p.0,
            refl,
            (refl, refl),
            omega (arith, n, length-append patches items),
            bounded (total_of total) (length found) (second (is_empty items) _ _ f) p.2,
          )

      go :
          (b : Bool)
          → is_page revision total (length patches) (length items) page ≡ b
          → TurnOf revision total items patches page (
              if b
              then end_page items (patches ++ items) revision total page
              else refuse inventory_changed)
      go false h = tt
      go true h = ends _ h _ refl refl

  -- What a turn has established, at any page but the first.
  pub read_page-TurnOf :
      (profile : String) (revision total : Value) (patches : List Value) (page : Fields)
      → 0 < length patches
      → TurnOf revision total
          (items_in page)
          patches
          page
          (read_page profile patches revision total page)
  unfolding read_page read_items TurnOf
  read_page-TurnOf profile revision total patches page n =
      go (patches_in (get_or_null "patches" page))
    where
      texts :
          (items : List Value) (a b c : Bool)
          → ltb 0 (length patches) ≡ c
          → (d : Bool) → (length patches == 0) ≡ d
          → TurnOf revision total items patches page (
              if not a
              then refuse inventory_identity
              else if not b
              then if c || ltb 625 (length items) then refuse incomplete_inventory else whole
              else if d
              then check_page
                  (get_or_null "revision" page)
                  (get_or_null "total" page)
                  items
                  patches
                  page
              else check_page revision total items patches page)
      texts items false b c e d f = tt
      texts items true false true e d f = tt
      texts items true false false e d f = absurd (ground (arith, e, n))
      texts items true true c e true f = absurd (ground (arith, f, n))
      texts items true true c e false f = check_page-TurnOf revision total items patches page

      go :
          (o : Option (List Value))
          → TurnOf revision total
              (items_or_none o)
              patches
              page
              (read_items o profile patches revision total page)
      go none = tt
      go (some items) = texts items _ _ (ltb 0 (length patches)) refl (length patches == 0) refl

  -- The first page: a whole list without an offset, or the first of several.
  unfoldable pub FirstTurn : List Value → Fields → Turn → Type 0
  FirstTurn items page whole = (has_field "offset" page ≡ false) × (length items ≤ 625)
  FirstTurn items page turn =
      TurnOf (get_or_null "revision" page) (get_or_null "total" page) items [] page turn

  pub read_page-FirstTurn :
      (profile : String) (page : Fields)
      → FirstTurn (items_in page) page (read_page profile [] null null page)
  unfolding read_page read_items FirstTurn TurnOf
  read_page-FirstTurn profile page = go (patches_in (get_or_null "patches" page))
    where
      first :
          (items : List Value) (t : Turn)
          → TurnOf (get_or_null "revision" page) (get_or_null "total" page) items [] page t
          → FirstTurn items page t
      first items (refuse e) h = h
      first items whole h = absurd h
      first items (last found) h = h
      first items (more found r t) h = h

      texts :
          (items : List Value) (a b : Bool)
          → has_field "offset" page ≡ b
          → (c : Bool) → ltb 625 (length items) ≡ c
          → FirstTurn items page (
              if not a
              then refuse inventory_identity
              else if not b
              then if c then refuse incomplete_inventory else whole
              else check_page
                  (get_or_null "revision" page)
                  (get_or_null "total" page)
                  items
                  []
                  page)
      texts items false b e c f = tt
      texts items true false e true f = tt
      texts items true false e false f = (e, ground (arith, f))
      texts items true true e c f = first items _ (check_page-TurnOf _ _ items [] page)

      go :
          (o : Option (List Value))
          → FirstTurn (items_or_none o) page (read_items o profile [] null null page)
      go none = tt
      go (some items) = texts items _ (has_field "offset" page) refl (ltb 625 (length items)) refl
