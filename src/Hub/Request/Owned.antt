-- ===== src/Hub/Request/Owned.antt =====
-- The pending requests that a subscriber owns, and the index of them that the hub keeps.
use bosun_midi_captain.Base.{
  ℕ, ◌≡◌, refl, String, Bool, false, Option, none, some, List, [], ◌∷◌, ◌++◌, arith, contains, add,
  discard, same_nat, same_text, ◌==◌, if◌then◌else◌,
}
use bosun_midi_captain.Base.Dict.{Dict, get, put, pop, get-put, get-pop}
use bosun_midi_captain.Hub.State.{Pending}
use bosun_midi_captain.Hub.Request.{ids_of, put_ids, release_id, release_owner}

abbrev pub is_owner : ℕ → Option ℕ → Bool
is_owner sub none = false
is_owner sub (some s) = s == sub

-- The ids of the requests of a subscriber in the table itself, in order.
unfoldable pub owned : ℕ → Dict String Pending → List String
owned sub [] = []
owned sub ((id, p) ∷ d) = let rest = owned sub d in if is_owner sub p.sub then id ∷ rest else rest

-- No key stands twice in the table.
unfoldable pub Unique : Dict String Pending → Type 0
Unique [] = Unit
Unique ((id, p) ∷ d) = (get id d ≡ none) × Unique d

-- A key that is not in the table is nobody's.
pub owned-none :
    (sub : ℕ) (id : String) (d : Dict String Pending)
    → get id d ≡ none
    → contains id (owned sub d) ≡ false
unfolding get owned
owned-none sub id [] e = refl
owned-none sub id ((k, p) ∷ d) e =
    ground (arith, same_text.same_iff k id, same_text.same_iff id k, owned-none sub id d)

-- A request of somebody else.
pub owned-other :
    (sub : ℕ) (id : String) (p : Pending) (d : Dict String Pending)
    → Unique d
    → get id d ≡ some p
    → is_owner sub p.sub ≡ false
    → contains id (owned sub d) ≡ false
unfolding get owned Unique
owned-other sub id p [] u e o = refl
owned-other sub id p ((k, q) ∷ d) u e o = ground (
  arith,
  same_text.same_iff k id,
  same_text.same_iff id k,
  owned-none sub id d,
  owned-other sub id p d u.1,
  u.0,
)

pub owned-put :
    (sub : ℕ) (id : String) (p : Pending) (d : Dict String Pending)
    → get id d ≡ none
    → owned sub (put id p d) ≡ (if is_owner sub p.sub then owned sub d ++ id ∷ [] else owned sub d)
unfolding get put owned
owned-put sub id p [] e = ground arith
owned-put sub id p ((k, q) ∷ d) e = ground (arith, owned-put sub id p d)

pub owned-pop :
    (sub : ℕ) (id : String) (d : Dict String Pending)
    → owned sub (pop id d) ≡ discard id (owned sub d)
unfolding pop owned
owned-pop sub id [] = refl
owned-pop sub id ((k, q) ∷ d) =
    ground (arith, same_text.same_iff k id, same_text.same_iff id k, owned-pop sub id d)

pub discard_absent :
    (id : String) (ids : List String) → contains id ids ≡ false → discard id ids ≡ ids
discard_absent id [] e = refl
discard_absent id (x ∷ ids) e =
    ground (arith, same_text.same_iff x id, same_text.same_iff id x, discard_absent id ids)

pub add_absent :
    (id : String) (ids : List String) → contains id ids ≡ false → add id ids ≡ ids ++ id ∷ []
add_absent id ids e = ground arith

pub put-Unique :
    (id : String) (p : Pending) (d : Dict String Pending)
    → get id d ≡ none
    → Unique d
    → Unique (put id p d)
unfolding get put Unique
put-Unique id p [] e u = (refl, tt)
put-Unique id p ((k, q) ∷ d) e u =
    ground
      (arith, same_text.same_iff k id, same_text.same_iff id k, get-put k id p d, put-Unique id p d)

pub pop-Unique : (id : String) (d : Dict String Pending) → Unique d → Unique (pop id d)
unfolding pop Unique
pop-Unique id [] u = tt
pop-Unique id ((k, q) ∷ d) u =
    ground
      (arith, same_text.same_iff k id, same_text.same_iff id k, get-pop k id d, pop-Unique id d)

pub ids_of-put :
    (j sub : ℕ) (ids : List String) (d : Dict ℕ (List String))
    → ids_of j (put sub ids d) ≡ (if sub == j then ids else ids_of j d)
unfolding ids_of
ids_of-put j sub ids d = ground (arith, get-put j sub ids d)

ids_of-pop :
    (j sub : ℕ) (d : Dict ℕ (List String))
    → ids_of j (pop sub d) ≡ (if sub == j then [] else ids_of j d)
unfolding ids_of
ids_of-pop j sub d = ground (arith, get-pop j sub d)

ids_of-put_ids :
    (j sub : ℕ) (ids : List String) (d : Dict ℕ (List String))
    → ids_of j (put_ids sub ids d) ≡ (if sub == j then ids else ids_of j d)
unfolding put_ids
ids_of-put_ids j sub [] d = ids_of-pop j sub d
ids_of-put_ids j sub (id ∷ ids) d = ids_of-put j sub (id ∷ ids) d

ids_of-release_id :
    (j sub : ℕ) (id : String) (found : Option (List String)) (d : Dict ℕ (List String))
    → get sub d ≡ found
    → ids_of j (release_id sub id found d)
      ≡ (if sub == j then discard id (ids_of j d) else ids_of j d)
unfolding release_id ids_of
ids_of-release_id j sub id none d e = ground (arith, same_nat.same_iff sub j)
ids_of-release_id j sub id (some ids) d e =
    ground (arith, same_nat.same_iff sub j, ids_of-put_ids j sub (discard id ids) d)

-- Releasing an id takes it out of its owner's entry of the index, and out of no other.
pub ids_of-release_owner :
    (j : ℕ) (owner : Option ℕ) (id : String) (d : Dict ℕ (List String))
    → ids_of j (release_owner owner id d)
      ≡ (if is_owner j owner then discard id (ids_of j d) else ids_of j d)
unfolding release_owner
ids_of-release_owner j none id d = refl
ids_of-release_owner j (some sub) id d = ids_of-release_id j sub id (get sub d) d refl
