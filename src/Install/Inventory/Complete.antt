-- ===== src/Install/Inventory/Complete.antt =====
-- The loop over the pages ends, and never gives a partial or mixed list.
use bosun_midi_captain.Base.{
  ℕ, zero, suc, ◌+◌, ◌≤◌, ◌<◌, ◌≡◌, refl, sym, ap, ◌∙◌, subst, String, false, none, some, List, [],
  ◌∷◌, ◌++◌, length, same_nat, arith, length-append, append-nil, append_assoc, ◌⊎◌, inl, inr,
}
use bosun_midi_captain.Json.{Value, Fields, null, get_or_null, has_field}
use bosun_midi_captain.Install.Snapshot.{Builtins}
use bosun_midi_captain.Install.Action.{CallResult, done, raised}
use bosun_midi_captain.Install.Inventory.{
  Turn, refuse, whole, last, more, total_of, catalog_of, read_page, Inventory, add_page,
  inventory_loop, patch_inventory,
}
use bosun_midi_captain.Install.Inventory.Turns.{
  Belongs, items_in, all_items, Chained, TurnOf, FirstTurn, read_page-TurnOf, read_page-FirstTurn,
}

module _ ⦃py : Builtins⦄ where
  module _ {W : Type 0} (request : ℕ → W → CallResult Fields × W) (profile : String) where
    -- From a page on: the loop ends, and a list that it returns is complete.
    Grown : Value → Value → List Value → Inventory request profile → Type 0
    Grown revision total patches none = ⊥
    Grown revision total patches (some (raised e, pages, w)) = Unit
    Grown revision total patches (some (done result, pages, w)) =
        Chained revision total (length patches) pages
        × (result ≡ catalog_of profile (patches ++ all_items pages))
        × (length (patches ++ all_items pages) ≡ total_of total)
        × (total_of total ≤ 625)

    add_page-Grown :
        (revision total : Value) (patches : List Value) (page : Fields)
        (i : Inventory request profile)
        → Belongs revision total (length patches) page
        → Grown revision total (patches ++ items_in page) i
        → Grown revision total patches (add_page request profile page i)
    unfolding add_page Chained all_items Grown
    add_page-Grown revision total patches page (some (done result, pages, w)) b (c, r, l, t) =
        let e = append_assoc patches (items_in page) (all_items pages) in
        (
          (
            b,
            subst (λ n. Chained revision total n pages) (length-append patches (items_in page)) c,
          ),
          r ∙ ap (catalog_of profile) e,
          sym (ap length e) ∙ l,
          t,
        )
    add_page-Grown revision total patches page (some (raised e, pages, w)) b h = tt
    add_page-Grown revision total patches page none b h = h

    -- What the loop does with a page, when its next turns are known to be right.
    turn-Grown :
        (fuel : ℕ) (patches : List Value) (revision total : Value) (page : Fields) (w : W)
        → 626 ≤ length patches + suc fuel
        → ((found : List Value) (r s : Value) (w : W)
            → 0 < length found
            → length found < 625
            → 626 ≤ length found + fuel
            → Grown r s found (inventory_loop request profile fuel found r s w))
        → (t : Turn) → TurnOf revision total (items_in page) patches page t
        → Grown revision total patches (elim t [
          | refuse e ↦ some (raised e, page ∷ [], w)
          | whole ↦ some (done page, page ∷ [], w)
          | last found ↦ some (done (catalog_of profile found), page ∷ [], w)
          | more found r s ↦
              add_page request profile page (inventory_loop request profile fuel found r s w)
        ])
    unfolding Grown TurnOf Chained all_items
    turn-Grown fuel patches revision total page w f later (refuse e) h = tt
    turn-Grown fuel patches revision total page w f later whole h = absurd h
    turn-Grown fuel patches revision total page w f later (last found) (b, e, l, t) =
        let same : found ≡ patches ++ (items_in page ++ []) =
          e ∙ ap (λ x. patches ++ x) (sym (append-nil (items_in page))) in
        ((b, tt), ap (catalog_of profile) same, sym (ap length same) ∙ l, t)
    turn-Grown fuel patches revision total page w f later (more found r s)
          (b, e, (er, es), lt, lt') =
        let i = inventory_loop request profile fuel found r s w in
        let rest = later found r s w (omega (arith, lt)) lt' (omega (arith, f, lt)) in
        add_page-Grown revision total patches page i b (
          subst (λ x. Grown revision total x i) e
            (subst (λ x. Grown revision x found i) es (subst (λ x. Grown x s found i) er rest)))

    inventory_loop-Grown :
        (fuel : ℕ) (patches : List Value) (revision total : Value) (w : W)
        → 0 < length patches
        → length patches < 625
        → 626 ≤ length patches + fuel
        → Grown revision total patches
            (inventory_loop request profile fuel patches revision total w)
    unfolding inventory_loop Grown
    inventory_loop-Grown zero patches revision total w p q f = omega (arith, q, f)
    inventory_loop-Grown (suc fuel) patches revision total w p q f =
        answer (request (length patches) w) (inventory_loop-Grown fuel)
      where
        answer :
            (o : CallResult Fields × W)
            → ((found : List Value) (r s : Value) (w : W)
                → 0 < length found
                → length found < 625
                → 626 ≤ length found + fuel
                → Grown r s found (inventory_loop request profile fuel found r s w))
            → Grown revision total patches (elim o.0 [
              | raised e ↦ some (raised e, [], o.1)
              | done page ↦ elim (read_page profile patches revision total page) [
                | refuse e ↦ some (raised e, page ∷ [], o.1)
                | whole ↦ some (done page, page ∷ [], o.1)
                | last found ↦ some (done (catalog_of profile found), page ∷ [], o.1)
                | more found r s ↦
                    add_page request profile page
                      (inventory_loop request profile fuel found r s o.1)
              ]
            ])
        answer (raised e, w) later = tt
        answer (done page, w) later =
            turn-Grown fuel patches revision total page w f later _
              (read_page-TurnOf profile revision total patches page p)

    -- A list that was read: one page without an offset, or pages of one revision.
    abbrev pub Listed : Fields → List Fields → Type 0
    Listed result pages =
        ((pages ≡ result ∷ [])
          × (has_field "offset" result ≡ false)
          × (length (items_in result) ≤ 625))
        ⊎ ((revision : Value) × (total : Value) × Chained revision total 0 pages
            × (result ≡ catalog_of profile (all_items pages))
            × (length (all_items pages) ≡ total_of total)
            × (total_of total ≤ 625))

    abbrev pub Complete : Inventory request profile → Type 0
    Complete none = ⊥
    Complete (some (raised e, pages, w)) = Unit
    Complete (some (done result, pages, w)) = Listed result pages

    Grown-Complete :
        (revision total : Value) (i : Inventory request profile)
        → Grown revision total [] i
        → Complete i
    unfolding Grown
    Grown-Complete revision total none h = h
    Grown-Complete revision total (some (raised e, pages, w)) h = tt
    Grown-Complete revision total (some (done result, pages, w)) (c, r, l, t) =
        inr (revision, total, c, r, l, t)

    -- Whatever the Captain answers, the loop ends: 626 turns are enough. What it returns is the one
    -- page without an offset that it read, with at most 625 patches, or all the patches of the pages
    -- that it read, which agree with one revision and one total, begin each where the one before
    -- ended, and hold exactly that total, at most 625.
    pub patch_inventory-Complete : (w : W) → Complete (patch_inventory request profile w)
    unfolding patch_inventory inventory_loop FirstTurn
    patch_inventory-Complete w = answer (request 0 w)
      where
        first :
            (page : Fields) (w : W) (t : Turn)
            → FirstTurn (items_in page) page t
            → Complete (elim t [
              | refuse e ↦ some (raised e, page ∷ [], w)
              | whole ↦ some (done page, page ∷ [], w)
              | last found ↦ some (done (catalog_of profile found), page ∷ [], w)
              | more found r s ↦
                  add_page request profile page (inventory_loop request profile 625 found r s w)
            ])
        first page w (refuse e) h = tt
        first page w whole h = inl (refl, h.0, h.1)
        first page w (last found) h =
            Grown-Complete (get_or_null "revision" page) (get_or_null "total" page) _
              (turn-Grown 625 [] _ _ page w (omega arith) (inventory_loop-Grown 625) (last found) h)
        first page w (more found r s) h =
            Grown-Complete (get_or_null "revision" page) (get_or_null "total" page) _ (
              turn-Grown 625 [] _ _ page w (omega arith) (inventory_loop-Grown 625) (more found r s)
                h)

        answer :
            (o : CallResult Fields × W)
            → Complete (elim o.0 [
              | raised e ↦ some (raised e, [], o.1)
              | done page ↦ elim (read_page profile [] null null page) [
                | refuse e ↦ some (raised e, page ∷ [], o.1)
                | whole ↦ some (done page, page ∷ [], o.1)
                | last found ↦ some (done (catalog_of profile found), page ∷ [], o.1)
                | more found r s ↦
                    add_page request profile page (inventory_loop request profile 625 found r s o.1)
              ]
            ])
        answer (raised e, w) = tt
        answer (done page, w) = first page w _ (read_page-FirstTurn profile page)
