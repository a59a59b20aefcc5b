-- ===== src/Base/Decimal.antt =====
-- str(n) for a natural number, and that it tells numbers apart.
use Prim.Native.Char.{Char, code}
use Prim.Native.Nat.{ℕ, zero, suc, ◌+◌, ◌*◌, ◌-◌, ◌/◌, ◌%◌, ◌<◌}
use Prim.Native.String.{String}
use mathlib.Core.Path.{◌≡◌, refl, sym, ap, ◌∙◌}
use mathlib.Core.Logic.{inl, inr}
use native.Mathlib.Omega.{arith}
use bosun_midi_captain.Base.Tests.{ltb, if◌then◌else◌, Bool-cases}

unfoldable digit : ℕ → Char
digit zero = "0"
digit (suc zero) = "1"
digit (suc (suc zero)) = "2"
digit (suc (suc (suc zero))) = "3"
digit (suc (suc (suc (suc zero)))) = "4"
digit (suc (suc (suc (suc (suc zero))))) = "5"
digit (suc (suc (suc (suc (suc (suc zero)))))) = "6"
digit (suc (suc (suc (suc (suc (suc (suc zero))))))) = "7"
digit (suc (suc (suc (suc (suc (suc (suc (suc zero)))))))) = "8"
digit (suc (suc (suc (suc (suc (suc (suc (suc (suc n))))))))) = "9"

-- The digits of `n` in front of `rest`; `fuel` above `n` is enough.
unfoldable write : ℕ → ℕ → String → String
write zero n rest = rest
write (suc fuel) n rest =
    let more = write fuel (n / 10) (String.◌∷◌ (digit (n % 10)) rest) in
    if ltb n 10 then String.◌∷◌ (digit n) rest else more

unfoldable pub decimal : ℕ → String
unfolding write digit
decimal n = write (suc n) n ""

-- Reading the digits again.
read : ℕ → String → ℕ
read acc String.[] = acc
read acc (String.◌∷◌ c s) = read (acc * 10 + (code c - 48)) s

code-digit : (d : ℕ) → d < 10 → code (digit d) ≡ d + 48
unfolding digit
code-digit zero h = refl
code-digit (suc zero) h = refl
code-digit (suc (suc zero)) h = refl
code-digit (suc (suc (suc zero))) h = refl
code-digit (suc (suc (suc (suc zero)))) h = refl
code-digit (suc (suc (suc (suc (suc zero))))) h = refl
code-digit (suc (suc (suc (suc (suc (suc zero)))))) h = refl
code-digit (suc (suc (suc (suc (suc (suc (suc zero))))))) h = refl
code-digit (suc (suc (suc (suc (suc (suc (suc (suc zero)))))))) h = refl
code-digit (suc (suc (suc (suc (suc (suc (suc (suc (suc zero))))))))) h = refl
code-digit (suc (suc (suc (suc (suc (suc (suc (suc (suc (suc d)))))))))) h = absurd (omega arith)

read-write : (fuel n : ℕ) (rest : String) → n < fuel → read 0 (write fuel n rest) ≡ read n rest
unfolding write read
read-write zero n rest h = elim h [ ]
read-write (suc fuel) n rest h = elim (Bool-cases (ltb n 10)) [
  | inl small ↦ rw small (ap (λ k. read k rest) (omega (arith, code-digit n (ground arith))))
  | inr big ↦ rw big (
      read-write fuel (n / 10) _ (ground arith)
      ∙ ap (λ k. read k rest) (omega (arith, code-digit (n % 10) (omega arith))))
]

-- Two numbers with the same decimal text are equal.
pub decimal-injective : (a b : ℕ) → decimal a ≡ decimal b → a ≡ b
unfolding decimal read
decimal-injective a b e =
    sym (read-write (suc a) a "" (omega arith))
    ∙ ap (read 0) e
    ∙ read-write (suc b) b "" (omega arith)

decimal_runs : decimal 1203 ≡ "1203"
unfolding decimal
decimal_runs = refl
