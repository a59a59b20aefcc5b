-- ===== src/Hub/Request/OwnIds.antt =====
-- The hub's private ids: what the hub gives out it knows again, and no two are the same.
use text.Mathlib.Text.{starts_with}
use text.Mathlib.TextPositions.{starts_with-append}
use text.Mathlib.TextLemmas.{append_cancel_left}
use bosun_midi_captain.Base.{ℕ, String, ◌≡◌, some, true}
use bosun_midi_captain.Base.Decimal.{decimal, decimal-injective}
use bosun_midi_captain.Json.{str}
use bosun_midi_captain.Hub.State.{private_id}
use bosun_midi_captain.Hub.Request.{own_id}

pub own_id-private_id :
    (id_prefix : String) (n : ℕ)
    → own_id id_prefix (str (private_id id_prefix n)) ≡ some (private_id id_prefix n)
unfolding own_id private_id
own_id-private_id id_prefix n =
    let own : starts_with (private_id id_prefix n) id_prefix ≡ true =
      starts_with-append id_prefix (decimal n) in
    rw own

pub private_id-injective :
    (id_prefix : String) (m n : ℕ) → private_id id_prefix m ≡ private_id id_prefix n → m ≡ n
unfolding private_id
private_id-injective id_prefix m n e =
    decimal-injective m n (append_cancel_left id_prefix (decimal m) (decimal n) e)
